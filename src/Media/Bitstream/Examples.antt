-- ===== src/Media/Bitstream/Examples.antt =====
-- h264_bitstream.cpp on small inputs: the theorems at concrete arguments.
use video_pipeline.Base.{
  ℕ, zero, suc, ◌^◌, ◌%◌, ◌≤◌, ◌≡◌, ◌≢◌, refl, false, List, [], ◌∷◌, ap, arith, length, replicate,
}
use video_pipeline.Media.Wire.{bytes, All}
use video_pipeline.Media.Bitstream.{
  NalUnit, split_avcc, split_packet, looks_like_annexb, start_code_size, any_start_code,
  split_avcc_from, read_be_length,
}
use video_pipeline.Media.Bitstream.Avcc.{avcc_bytes, split_avcc-avcc_bytes}
use video_pipeline.Media.Bitstream.AvccSound.{split_avcc_sound}
use video_pipeline.Media.Bitstream.AnnexB.{NoStartCode}
use video_pipeline.Media.Bitstream.Packet.{split_packet_misreads}

abbrev two_nals : List NalUnit
two_nals = (0x67 ∷ 66 ∷ 0 ∷ 0 ∷ 7 ∷ []) ∷ (0x65 ∷ 1 ∷ 2 ∷ []) ∷ []

split_avcc-avcc_bytes_example : split_avcc (bytes (avcc_bytes 2 two_nals)) 2 ≡ two_nals
split_avcc-avcc_bytes_example =
    split_avcc-avcc_bytes 2 (omega arith, omega arith) two_nals
      ((omega arith, omega arith), ((omega arith, omega arith), tt))

two_bodies : split_avcc (bytes (2 ∷ 8 ∷ 9 ∷ 1 ∷ 7 ∷ [])) 1 ≢ []
unfolding split_avcc split_avcc_from read_be_length
two_bodies e = absurd (omega (arith, ap length e))

split_avcc_sound_example :
    (avcc_bytes 1 (split_avcc (bytes (2 ∷ 8 ∷ 9 ∷ 1 ∷ 7 ∷ [])) 1) ≡ 2 ∷ 8 ∷ 9 ∷ 1 ∷ 7 ∷ [])
    × All (λ nal. 1 ≤ length nal) (split_avcc (bytes (2 ∷ 8 ∷ 9 ∷ 1 ∷ 7 ∷ [])) 1)
split_avcc_sound_example =
    split_avcc_sound 1 (2 ∷ 8 ∷ 9 ∷ 1 ∷ 7 ∷ []) (omega arith, omega arith)
      (omega arith, (omega arith, (omega arith, (omega arith, (omega arith, tt))))) two_bodies

two_nals_free : All NoStartCode two_nals
unfolding start_code_size
two_nals_free = ((refl, (refl, (refl, (refl, (refl, tt))))), ((refl, (refl, (refl, tt))), tt))

no_code : looks_like_annexb (bytes (avcc_bytes 4 two_nals)) ≡ false
unfolding looks_like_annexb any_start_code start_code_size
no_code = refl

abbrev flat_nal : NalUnit
flat_nal = 0x65 ∷ replicate 299 1

ones_free : (n : ℕ) → NoStartCode (replicate n 1)
unfolding start_code_size
ones_free zero = tt
ones_free (suc n) = (ground arith, ones_free n)

flat_nal_free : NoStartCode ((length flat_nal % 2 ^ 8) ∷ flat_nal)
unfolding start_code_size
flat_nal_free = (refl, (refl, ones_free 299))

split_packet_misreads_example :
    split_packet (bytes (avcc_bytes 4 (flat_nal ∷ []))) 4 ≡ (44 ∷ flat_nal) ∷ []
split_packet_misreads_example =
    split_packet_misreads flat_nal (omega arith) (omega arith) flat_nal_free
