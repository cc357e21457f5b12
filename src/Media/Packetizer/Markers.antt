-- ===== src/Media/Packetizer/Markers.antt =====
-- The H.264 packetizer: the sizes, timestamps and markers of its payloads.
use video_pipeline.Base.{
  ℕ, zero, suc, ◌+◌, ◌-◌, ◌*◌, ◌/◌, ◌%◌, ◌^◌, ◌≤◌, ◌≡◌, refl, inl, inr, min, max, Bool, true, false,
  List, [], ◌∷◌, ◌++◌, append-nil, arith, leb, leb→le, if◌then◌else◌, length, take, drop,
  length-take, length-drop, drop-all, Bool-cases,
}
use video_pipeline.Media.Wire.{All, All-append}
use video_pipeline.Media.Bitstream.{NalUnit, is_empty}
use video_pipeline.Media.Packetizer.{
  RtpPayload, EncodedAccessUnit, to_u32, max_payload_size_of, fragments, packetize_nal,
  packetize_nals, packetize_h264,
}

-- A payload that is not empty, within the limit, with the timestamp of its access unit.
abbrev pub IsPayload : ℕ → ℕ → RtpPayload → Type 0
IsPayload max_size timestamp p =
    (1 ≤ length p.payload) × (length p.payload ≤ max_size) × (p.timestamp ≡ timestamp)

fragments-IsPayload :
    (fuel capacity fu_indicator nal_type timestamp : ℕ) (is_last first : Bool) (rest : List ℕ)
    → All
        (IsPayload (capacity + 2) timestamp)
        (fragments fuel capacity fu_indicator nal_type timestamp is_last first rest)
unfolding fragments
fragments-IsPayload zero c i n t l f rest = tt
fragments-IsPayload (suc fuel) c i n t l f [] = tt
fragments-IsPayload (suc fuel) c i n t l f (b ∷ rest) = (
  (omega arith, omega (arith, length-take (min c (length (b ∷ rest))) (b ∷ rest)), refl),
  fragments-IsPayload fuel c i n t l false (drop (min c (length (b ∷ rest))) (b ∷ rest)),
)

module _ (max_size timestamp : ℕ) (room : 4 ≤ max_size) where
  packetize_nal-IsPayload :
      (is_last : Bool) (nal : NalUnit)
      → All (IsPayload max_size timestamp) (packetize_nal max_size timestamp is_last nal)
  unfolding packetize_nal
  packetize_nal-IsPayload is_last [] = tt
  packetize_nal-IsPayload is_last (header ∷ rest) =
      elim (Bool-cases (leb (length (header ∷ rest)) max_size)) [
        | inl whole ↦ rw whole ((omega arith, leb→le _ _ whole, refl), tt)
        | inr cut ↦
            let limit : max_size - 2 + 2 ≡ max_size = omega arith in
            rw cut (
              rw limit at (
                fragments-IsPayload (length rest) (max_size - 2) (header / 2 ^ 5 * 2 ^ 5 + 28)
                  (header % 2 ^ 5) timestamp is_last true rest))
      ]

  packetize_nals-IsPayload :
      (nals : List NalUnit)
      → All (IsPayload max_size timestamp) (packetize_nals max_size timestamp nals)
  unfolding packetize_nals
  packetize_nals-IsPayload [] = tt
  packetize_nals-IsPayload (nal ∷ nals) =
      All-append (IsPayload max_size timestamp) (packetize_nal max_size timestamp _ nal) _
        (packetize_nal-IsPayload _ nal) (packetize_nals-IsPayload nals)

-- Every payload has at least one byte and at most as many as the limit, which is never below four,
-- and carries the low 32 bits of the access unit's PTS.
pub packetize_h264-IsPayload :
    (requested : ℕ) (access_unit : EncodedAccessUnit)
    → All
        (IsPayload (max requested 4) (to_u32 access_unit.pts))
        (packetize_h264 requested access_unit)
unfolding packetize_h264 max_payload_size_of
packetize_h264-IsPayload requested access_unit =
    packetize_nals-IsPayload (max requested 4) (to_u32 access_unit.pts) (omega arith)
      access_unit.nals

-- No payload carries the marker.
abbrev pub Unmarked : RtpPayload → Type 0
Unmarked p = p.marker ≡ false

-- The last payload carries the marker and no other does.
abbrev pub MarkedLast : List RtpPayload → Type 0
MarkedLast [] = ⊥
MarkedLast (p ∷ []) = p.marker ≡ true
MarkedLast (p ∷ q ∷ ps) = Unmarked p × MarkedLast (q ∷ ps)

MarkedLast-append :
    (ps qs : List RtpPayload) → All Unmarked ps → MarkedLast qs → MarkedLast (ps ++ qs)
MarkedLast-append [] qs h m = m
MarkedLast-append (p ∷ []) [] h m = absurd m
MarkedLast-append (p ∷ []) (q ∷ qs) h m = (h.0, m)
MarkedLast-append (p ∷ p' ∷ ps) qs h m = (h.0, MarkedLast-append (p' ∷ ps) qs h.1 m)

MarkedLast-cons :
    (p : RtpPayload) (ps : List RtpPayload) → Unmarked p → MarkedLast ps → MarkedLast (p ∷ ps)
MarkedLast-cons p [] h m = absurd m
MarkedLast-cons p (q ∷ ps) h m = (h, m)

module _ (capacity fu_indicator nal_type timestamp : ℕ) (room : 1 ≤ capacity) where
  fragments-Unmarked :
      (fuel : ℕ) (first : Bool) (rest : List ℕ)
      → All Unmarked (fragments fuel capacity fu_indicator nal_type timestamp false first rest)
  unfolding fragments
  fragments-Unmarked zero first rest = tt
  fragments-Unmarked (suc fuel) first [] = tt
  fragments-Unmarked (suc fuel) first (b ∷ rest) = (refl, fragments-Unmarked fuel false _)

  no_fragments :
      (fuel : ℕ) (first : Bool)
      → fragments fuel capacity fu_indicator nal_type timestamp true first [] ≡ []
  unfolding fragments
  no_fragments zero first = refl
  no_fragments (suc fuel) first = refl

  fragments-MarkedLast :
      (fuel : ℕ) (first : Bool) (rest : List ℕ)
      → 1 ≤ length rest
      → length rest ≤ fuel
      → MarkedLast (fragments fuel capacity fu_indicator nal_type timestamp true first rest)
  unfolding fragments
  fragments-MarkedLast fuel first [] one h = absurd (omega arith)
  fragments-MarkedLast zero first (b ∷ rest) one h = absurd (omega arith)
  fragments-MarkedLast (suc fuel) first (b ∷ rest) one h =
      let size = min capacity (length (b ∷ rest)) in
      elim (Bool-cases (leb (length (b ∷ rest)) size)) [
        | inl last ↦ rw (drop-all size (b ∷ rest) (leb→le _ _ last), no_fragments fuel false) last
        | inr inner ↦
            let end_bit : ℕ = if leb (length (b ∷ rest)) size then 0x40 else 0 in
            let flags = nal_type + (if first then 0x80 else 0) + end_bit in
            MarkedLast-cons
              (record {
                payload = fu_indicator ∷ flags ∷ take size (b ∷ rest);
                timestamp = timestamp;
                marker = leb (length (b ∷ rest)) size;
              })
              (fragments fuel capacity fu_indicator nal_type timestamp true false
                (drop size (b ∷ rest)))
              inner
              (fragments-MarkedLast fuel false (drop size (b ∷ rest))
                (ground (arith, length-drop size (b ∷ rest)))
                (omega (arith, length-drop size (b ∷ rest))))
      ]

not_last : (before : List NalUnit) (last : NalUnit) → is_empty (before ++ (last ∷ [])) ≡ false
not_last [] last = refl
not_last (x ∷ xs) last = refl

module _ (max_size timestamp : ℕ) (room : 4 ≤ max_size) where
  packetize_nal-Unmarked :
      (nal : NalUnit) → All Unmarked (packetize_nal max_size timestamp false nal)
  unfolding packetize_nal
  packetize_nal-Unmarked [] = tt
  packetize_nal-Unmarked (header ∷ rest) =
      elim (Bool-cases (leb (length (header ∷ rest)) max_size)) [
        | inl whole ↦ rw whole (refl, tt)
        | inr cut ↦
            rw cut (
              fragments-Unmarked (max_size - 2) _ _ timestamp (omega arith) (length rest) true rest)
      ]

  packetize_nal-MarkedLast :
      (nal : NalUnit) → 1 ≤ length nal → MarkedLast (packetize_nal max_size timestamp true nal)
  unfolding packetize_nal
  packetize_nal-MarkedLast [] one = absurd (omega arith)
  packetize_nal-MarkedLast (header ∷ rest) one =
      elim (Bool-cases (leb (length (header ∷ rest)) max_size)) [
        | inl whole ↦ rw whole refl
        | inr cut ↦ rw cut (
            fragments-MarkedLast (max_size - 2) (header / 2 ^ 5 * 2 ^ 5 + 28) (header % 2 ^ 5)
              timestamp (omega arith) (length rest) true rest (ground arith) (omega arith))
      ]

  packetize_nals-MarkedLast :
      (before : List NalUnit) (last : NalUnit)
      → 1 ≤ length last
      → MarkedLast (packetize_nals max_size timestamp (before ++ (last ∷ [])))
  unfolding packetize_nals
  packetize_nals-MarkedLast [] last one =
      rw (append-nil (packetize_nal max_size timestamp true last))
        (packetize_nal-MarkedLast last one)
  packetize_nals-MarkedLast (nal ∷ before) last one = rw (not_last before last) (
      MarkedLast-append (packetize_nal max_size timestamp false nal)
        (packetize_nals max_size timestamp (before ++ (last ∷ []))) (packetize_nal-Unmarked nal)
        (packetize_nals-MarkedLast before last one))

-- If the last NAL unit of an access unit is not empty, the last payload carries the marker, and it
-- alone.
pub packetize_h264-MarkedLast :
    (requested : ℕ) (access_unit : EncodedAccessUnit) (before : List NalUnit) (last : NalUnit)
    → access_unit.nals ≡ before ++ (last ∷ [])
    → 1 ≤ length last
    → MarkedLast (packetize_h264 requested access_unit)
unfolding packetize_h264 max_payload_size_of
packetize_h264-MarkedLast requested access_unit before last e one = rw e (
    packetize_nals-MarkedLast (max requested 4) (to_u32 access_unit.pts) (omega arith) before last
      one)

packetize_nals-Unmarked :
    (max_size timestamp : ℕ) (before : List NalUnit)
    → 4 ≤ max_size
    → All Unmarked (packetize_nals max_size timestamp (before ++ ([] ∷ [])))
unfolding packetize_nals
packetize_nals-Unmarked max_size timestamp [] h = unfold packetize_nal in tt
packetize_nals-Unmarked max_size timestamp (nal ∷ before) h = rw (not_last before []) (
    All-append Unmarked (packetize_nal max_size timestamp false nal)
      (packetize_nals max_size timestamp (before ++ ([] ∷ [])))
      (packetize_nal-Unmarked max_size timestamp h nal)
      (packetize_nals-Unmarked max_size timestamp before h))

-- A defect: if the last NAL unit is empty, it is skipped and no payload carries the marker, so the
-- receiver sees no end of the access unit.
pub packetize_h264-Unmarked :
    (requested : ℕ) (access_unit : EncodedAccessUnit) (before : List NalUnit)
    → access_unit.nals ≡ before ++ ([] ∷ [])
    → All Unmarked (packetize_h264 requested access_unit)
unfolding packetize_h264 max_payload_size_of
packetize_h264-Unmarked requested access_unit before e =
    rw e (packetize_nals-Unmarked (max requested 4) (to_u32 access_unit.pts) before (omega arith))
