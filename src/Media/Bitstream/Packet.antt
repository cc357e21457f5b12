-- ===== src/Media/Bitstream/Packet.antt =====
-- SplitPacket of h264_bitstream.cpp: how it chooses between the Annex-B and the AVCC form.
use video_pipeline.Base.{
  ℕ, zero, suc, ◌%◌, ◌^◌, ◌≤◌, ◌<◌, ◌≡◌, ◌≢◌, refl, true, false, List, [], ◌∷◌, ◌++◌, append-nil,
  arith, length, length-append, min,
}
use video_pipeline.Media.Wire.{bytes, All}
use video_pipeline.Media.Bitstream.{
  NalUnit, start_code_size, split_annexb_from, split_annexb, any_start_code, looks_like_annexb,
  split_packet,
}
use video_pipeline.Media.Bitstream.AnnexB.{
  NoStartCode, annexb_bytes, start_code_size-four, next_nal-last, split_annexb-annexb_bytes,
}
use video_pipeline.Media.Bitstream.Avcc.{
  avcc_bytes, be_bytes, Fits, IsLengthSize, is_empty-eq-false, split_avcc-avcc_bytes,
}

any_start_code_first :
    (n : ℕ) (rest : List ℕ) → 1 ≤ n → start_code_size rest ≢ 0 → any_start_code n rest ≡ true
unfolding any_start_code
any_start_code_first zero rest h s = absurd (omega arith)
any_start_code_first (suc n) rest h s = ground arith

looks_like_annexb-four : (rest : List ℕ) → looks_like_annexb (bytes (0 ∷ 0 ∷ 0 ∷ 1 ∷ rest)) ≡ true
unfolding looks_like_annexb
looks_like_annexb-four rest = ground (
  arith,
  any_start_code_first (min (length (0 ∷ 0 ∷ 0 ∷ 1 ∷ rest)) 64) (0 ∷ 0 ∷ 0 ∷ 1 ∷ rest) (omega arith)
      (omega (arith, start_code_size-four rest)),
)

-- A packet in Annex-B form, of NAL units that are not empty and hold no start code, is split into
-- them, whatever length size is configured.
pub split_packet-annexb_bytes :
    (nals : List NalUnit) (length_size : ℕ)
    → All NoStartCode nals
    → All (λ nal. 1 ≤ length nal) nals
    → split_packet (bytes (annexb_bytes nals)) length_size ≡ nals
unfolding split_packet
split_packet-annexb_bytes [] n h f = refl
split_packet-annexb_bytes (nal ∷ nals) n h f =
    rw (looks_like_annexb-four (nal ++ annexb_bytes nals))
      (split_annexb-annexb_bytes (nal ∷ nals) h f)

-- A packet in AVCC form, of NAL units that their length fields can describe, is split into them,
-- unless it looks like Annex-B: a start code shows among its first 64 positions.
pub split_packet-avcc_bytes :
    (n : ℕ) (nals : List NalUnit)
    → IsLengthSize n
    → All (Fits n) nals
    → looks_like_annexb (bytes (avcc_bytes n nals)) ≡ false
    → split_packet (bytes (avcc_bytes n nals)) n ≡ nals
unfolding split_packet
split_packet-avcc_bytes n [] size f h = refl
split_packet-avcc_bytes n (nal ∷ nals) size (f, fs) h =
    rw (h, split_avcc-avcc_bytes n size (nal ∷ nals) (f, fs))
      (ground (
        arith,
        is_empty-eq-false (avcc_bytes n (nal ∷ nals)) (
            omega (
              arith,
              length-append (be_bytes n (length nal)) (nal ++ avcc_bytes n nals),
              length-append nal (avcc_bytes n nals),
            )),
      ))

start_code_size-three : (b : ℕ) (rest : List ℕ) → start_code_size (0 ∷ 0 ∷ 1 ∷ b ∷ rest) ≡ 3
unfolding start_code_size
start_code_size-three b rest = ground arith

looks_like_annexb-three :
    (b : ℕ) (rest : List ℕ) → looks_like_annexb (bytes (0 ∷ 0 ∷ 1 ∷ b ∷ rest)) ≡ true
unfolding looks_like_annexb
looks_like_annexb-three b rest = ground (
  arith,
  any_start_code_first (min (length (0 ∷ 0 ∷ 1 ∷ b ∷ rest)) 64) (0 ∷ 0 ∷ 1 ∷ b ∷ rest) (omega arith)
      (omega (arith, start_code_size-three b rest)),
)

split_annexb-three :
    (b : ℕ) (rest : List ℕ)
    → NoStartCode (b ∷ rest)
    → split_annexb (bytes (0 ∷ 0 ∷ 1 ∷ b ∷ rest)) ≡ (b ∷ rest) ∷ []
unfolding split_annexb split_annexb_from
split_annexb-three b rest h = rw (start_code_size-three b rest, next_nal-last (b ∷ rest) h)

-- With length fields of four bytes, SplitPacket misreads an AVCC packet of one NAL unit of 256 to 511 bytes,
-- if there is no start code in the last byte of its length and what follows: the first three bytes of the
-- length are taken for one, and the NAL unit comes out with the last byte in front.
pub split_packet_misreads :
    (nal : NalUnit)
    → 256 ≤ length nal
    → length nal < 512
    → NoStartCode ((length nal % 2 ^ 8) ∷ nal)
    → split_packet (bytes (avcc_bytes 4 (nal ∷ []))) 4 ≡ ((length nal % 2 ^ 8) ∷ nal) ∷ []
split_packet_misreads nal lo hi h =
    rw form
      (unfold split_packet in rw (looks_like_annexb-three low nal) (split_annexb-three low nal h))
  where
    low : ℕ
    low = length nal % 2 ^ 8

    form : avcc_bytes 4 (nal ∷ []) ≡ 0 ∷ 0 ∷ 1 ∷ low ∷ nal
    form = ground (arith, append-nil nal)
