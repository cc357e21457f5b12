-- ===== src/Media/Packetizer/Receiver.antt =====
-- The H.264 packetizer against a receiver of RFC 6184: no byte is lost and no payload is too long.
use video_pipeline.Base.{
  ℕ, zero, suc, ◌+◌, ◌-◌, ◌*◌, ◌/◌, ◌%◌, ◌^◌, ◌≤◌, ◌≡◌, refl, ap, ◌∙◌, inl, inr, min, max, ◌&&◌,
  Bool, true, false, List, [], ◌∷◌, ◌++◌, append_assoc, arith, leb, ◌==◌, if◌then◌else◌, length,
  take, drop, length-drop, take-append-drop, take-all, drop-all, leb→le, Bool-cases,
}
use video_pipeline.Media.Wire.{IsByte, All}
use video_pipeline.Media.Bitstream.{NalUnit}
use video_pipeline.Media.Packetizer.{
  RtpPayload, EncodedAccessUnit, to_u32, max_payload_size_of, fragments, packetize_nal,
  packetize_nals, packetize_h264,
}

-- The types that RFC 6184 gives to payloads that are one NAL unit.
abbrev is_single : ℕ → Bool
is_single header = leb 1 (header % 2 ^ 5) && leb (header % 2 ^ 5) 23

-- A receiver of single NAL units and FU-A fragments: a payload of type 28 is a fragment, whose start bit
-- opens a NAL unit and whose end bit closes it; one of a type from 1 to 23 is a NAL unit; all others, among
-- them the aggregation packets, are dropped. `current` is the NAL unit that is open.
receive_one : List ℕ → List ℕ → List ℕ × List NalUnit
receive_one [] current = (current, [])
receive_one (b ∷ []) current = (current, if is_single b then (b ∷ []) ∷ [] else [])
receive_one (indicator ∷ header ∷ body) current =
    let opened =
      if leb 0x80 header
      then (indicator / 2 ^ 5 * 2 ^ 5 + header % 2 ^ 5) ∷ body
      else current ++ body in
    if indicator % 2 ^ 5 == 28
    then (if header / 2 ^ 6 % 2 == 1 then ([], opened ∷ []) else (opened, []))
    else (current, if is_single indicator then (indicator ∷ header ∷ body) ∷ [] else [])

pub receive : List RtpPayload → List ℕ → List NalUnit
receive [] current = []
receive (p ∷ ps) current =
    let (next, nals) = receive_one p.payload current in nals ++ receive ps next

module _ (capacity header timestamp : ℕ) (is_last_nal : Bool) (room : 1 ≤ capacity)
    (byte : IsByte header) where
  fu : ℕ → Bool → List ℕ → List RtpPayload
  fu fuel first rest =
      fragments fuel capacity (header / 2 ^ 5 * 2 ^ 5 + 28) (header % 2 ^ 5) timestamp is_last_nal
        first rest

  -- What is open once the bytes `rest` are in as well.
  joined : Bool → List ℕ → List ℕ → List ℕ
  joined first current rest = if first then header ∷ rest else current ++ rest

  receive_one-last :
      (first : Bool) (current body : List ℕ)
      → receive_one
          ((header / 2 ^ 5 * 2 ^ 5 + 28)
            ∷ (header % 2 ^ 5 + (if first then 0x80 else 0) + 0x40)
            ∷ body)
          current
        ≡ ([], joined first current body ∷ [])
  unfolding receive_one joined
  receive_one-last true current body = ground arith
  receive_one-last false current body = ground arith

  receive_one-inner :
      (first : Bool) (current body : List ℕ)
      → receive_one
          ((header / 2 ^ 5 * 2 ^ 5 + 28)
            ∷ (header % 2 ^ 5 + (if first then 0x80 else 0) + 0)
            ∷ body)
          current
        ≡ (joined first current body, [])
  unfolding receive_one joined
  receive_one-inner true current body = ground arith
  receive_one-inner false current body = ground arith

  joined-joined :
      (first : Bool) (current : List ℕ) (n : ℕ) (rest : List ℕ)
      → joined false (joined first current (take n rest)) (drop n rest) ≡ joined first current rest
  unfolding joined
  joined-joined true current n rest = ap (◌∷◌ header) (take-append-drop n rest)
  joined-joined false current n rest =
      append_assoc current (take n rest) (drop n rest) ∙ ap (◌++◌ current) (take-append-drop n rest)

  no_fragments : (fuel : ℕ) (first : Bool) → fu fuel first [] ≡ []
  unfolding fu fragments
  no_fragments zero first = refl
  no_fragments (suc fuel) first = refl

  module _ (fuel : ℕ) (first : Bool) (b : ℕ) (rest current : List ℕ) (after : List RtpPayload) where
    size : ℕ
    size = min capacity (length (b ∷ rest))

    last_round :
        leb (length (b ∷ rest)) size ≡ true
        → receive (fu (suc fuel) first (b ∷ rest) ++ after) current
          ≡ joined first current (b ∷ rest) ∷ receive after []
    unfolding size fu fragments receive
    last_round last =
        let all = leb→le (length (b ∷ rest)) size last in
        rw
          (
            last,
            receive_one-last first current (take size (b ∷ rest)),
            take-all size (b ∷ rest) all,
            drop-all size (b ∷ rest) all,
          )
          (rw (no_fragments fuel false))

    inner_round :
        leb (length (b ∷ rest)) size ≡ false
        → receive (fu (suc fuel) first (b ∷ rest) ++ after) current
          ≡ receive
              (fu fuel false (drop size (b ∷ rest)) ++ after)
              (joined first current (take size (b ∷ rest)))
    unfolding size fu fragments receive
    inner_round inner = rw (inner, receive_one-inner first current (take size (b ∷ rest)))

  receive-fragments :
      (fuel : ℕ) (first : Bool) (rest current : List ℕ) (after : List RtpPayload)
      → 1 ≤ length rest
      → length rest ≤ fuel
      → receive (fu fuel first rest ++ after) current ≡ joined first current rest ∷ receive after []
  unfolding size
  receive-fragments fuel first [] current after one h = absurd (omega arith)
  receive-fragments zero first (b ∷ rest) current after one h = absurd (omega arith)
  receive-fragments (suc fuel) first (b ∷ rest) current after one h =
      let k = min capacity (length (b ∷ rest)) in
      elim (Bool-cases (leb (length (b ∷ rest)) k)) [
        | inl last ↦ last_round fuel first b rest current after last
        | inr inner ↦
            inner_round fuel first b rest current after inner
            ∙ receive-fragments fuel false (drop k (b ∷ rest))
                (joined first current (take k (b ∷ rest))) after
                (ground (arith, length-drop k (b ∷ rest))) (omega (arith, length-drop k (b ∷ rest)))
            ∙ ap (λ l. l ∷ receive after []) (joined-joined first current k (b ∷ rest))
      ]

-- A NAL unit of a type from 1 to 23; an empty one is skipped.
abbrev pub IsSendable : NalUnit → Type 0
IsSendable [] = Unit {0}
IsSendable (header ∷ rest) = IsByte header × (1 ≤ header % 2 ^ 5) × (header % 2 ^ 5 ≤ 23)

abbrev pub non_empty : List NalUnit → List NalUnit
non_empty [] = []
non_empty ([] ∷ nals) = non_empty nals
non_empty ((b ∷ nal) ∷ nals) = (b ∷ nal) ∷ non_empty nals

packetize_nal-nil :
    (max_size timestamp : ℕ) (is_last : Bool) → packetize_nal max_size timestamp is_last [] ≡ []
unfolding packetize_nal
packetize_nal-nil max_size timestamp is_last = refl

module _ (max_size timestamp : ℕ) (room : 4 ≤ max_size) where
  receive_whole :
      (is_last : Bool) (header : ℕ) (rest : List ℕ) (after : List RtpPayload)
      → IsSendable (header ∷ rest)
      → receive
          (record { payload = header ∷ rest; timestamp = timestamp; marker = is_last } ∷ after)
          []
        ≡ (header ∷ rest) ∷ receive after []
  unfolding receive receive_one
  receive_whole is_last header [] after h = ground arith
  receive_whole is_last header (b ∷ rest) after h = ground arith

  receive-packetize_nal :
      (is_last : Bool) (header : ℕ) (rest : List ℕ) (after : List RtpPayload)
      → IsSendable (header ∷ rest)
      → receive (packetize_nal max_size timestamp is_last (header ∷ rest) ++ after) []
        ≡ (header ∷ rest) ∷ receive after []
  unfolding packetize_nal fu joined
  receive-packetize_nal is_last header rest after h =
      elim (Bool-cases (leb (length (header ∷ rest)) max_size)) [
        | inl whole ↦ rw whole (receive_whole is_last header rest after h)
        | inr cut ↦ rw cut (
            receive-fragments (max_size - 2) header timestamp is_last (omega arith) h.0
              (length rest) true rest [] after (ground arith) (omega arith))
      ]

  receive-packetize_nals :
      (nals : List NalUnit)
      → All IsSendable nals
      → receive (packetize_nals max_size timestamp nals) [] ≡ non_empty nals
  unfolding packetize_nals
  receive-packetize_nals [] h = unfold receive in refl
  receive-packetize_nals ([] ∷ nals) (h, hs) =
      rw (packetize_nal-nil max_size timestamp _) (receive-packetize_nals nals hs)
  receive-packetize_nals ((b ∷ nal) ∷ nals) (h, hs) =
      receive-packetize_nal _ b nal (packetize_nals max_size timestamp nals) h
      ∙ ap (◌∷◌ (b ∷ nal)) (receive-packetize_nals nals hs)

-- For every payload limit and every access unit whose NAL units have types from 1 to 23, a receiver that
-- takes the single NAL units and the FU-A fragments of RFC 6184, and no other payloads, gets back every NAL
-- unit that is not empty, in order and byte for byte, from the payloads of H264RtpPacketizer::Packetize.
pub receive-packetize_h264 :
    (requested : ℕ) (access_unit : EncodedAccessUnit)
    → All IsSendable access_unit.nals
    → receive (packetize_h264 requested access_unit) [] ≡ non_empty access_unit.nals
unfolding packetize_h264 max_payload_size_of
receive-packetize_h264 requested access_unit h =
    receive-packetize_nals (max requested 4) (to_u32 access_unit.pts) (omega arith) access_unit.nals
      h
