-- ===== src/Media/Packetizer/Audio.antt =====
-- The audio packetizer: AAC access units behind an RFC 3640 AU header, with the ADTS header removed.
use video_pipeline.Base.{
  ℕ, ◌*◌, ◌/◌, ◌%◌, ◌^◌, ◌≡◌, true, List, [], ◌∷◌, ◌++◌, arith, ◌==◌, if◌then◌else◌, length,
  length-append, drop-append,
}
use video_pipeline.Media.Wire.{bytes, byte_at, be16}
use video_pipeline.Media.Bitstream.Avcc.{is_empty-eq-false}
use video_pipeline.Media.Packetizer.{
  EncodedAccessUnit, aac, to_u32, adts_header_size, aac_payloads, packetize_audio,
}

-- An ADTS header: the sync word, and seven bytes, or nine where the protection bit announces a CRC.
pub record IsAdts (header : List ℕ) : Type 0 where
  pub first : byte_at header 0 ≡ 0xff
  pub second : byte_at header 1 / 2 ^ 4 ≡ 0xf
  pub size : length header ≡ (if byte_at header 1 % 2 == 1 then 7 else 9)

-- The AU header of one access unit of `n` bytes: 16 bits of AU headers, 13 of them the size.
abbrev pub au_bytes : ℕ → List ℕ → List ℕ
au_bytes n sample = be16 16 (be16 (n % 2 ^ 13 * 2 ^ 3) sample)

aac_payloads-layout :
    (timestamp b : ℕ) (sample : List ℕ)
    → aac_payloads timestamp (b ∷ sample)
      ≡ record {
        payload = au_bytes (length (b ∷ sample)) (b ∷ sample);
        timestamp = timestamp;
        marker = true;
      }
        ∷ []
unfolding aac_payloads
aac_payloads-layout timestamp b sample = ground arith

adts_header_size-adts :
    (header sample : List ℕ) → IsAdts header → adts_header_size (header ++ sample) ≡ length header
unfolding adts_header_size
adts_header_size-adts [] sample h = absurd (ground (arith, h.size))
adts_header_size-adts (a ∷ []) sample h = absurd (ground (arith, h.size))
adts_header_size-adts (a ∷ b ∷ header) sample h =
    ground (arith, h.first, h.second, h.size, length-append header sample)

-- An AAC access unit behind an ADTS header, of seven bytes or of nine with a CRC, becomes one marked
-- payload: the AU header, whose size field holds the size of the raw access unit modulo 2 ^ 13, and
-- the raw access unit.
pub packetize_audio-adts :
    (access_unit : EncodedAccessUnit) (header : List ℕ) (b : ℕ) (sample : List ℕ)
    → access_unit.codec_type ≡ aac
    → access_unit.encoded_data ≡ bytes (header ++ (b ∷ sample))
    → IsAdts header
    → packetize_audio access_unit
      ≡ record {
        payload = au_bytes (length (b ∷ sample)) (b ∷ sample);
        timestamp = to_u32 access_unit.pts;
        marker = true;
      }
        ∷ []
unfolding packetize_audio
packetize_audio-adts access_unit header b sample codec e h =
    rw
      (
        codec,
        e,
        is_empty-eq-false (header ++ (b ∷ sample))
            (omega (arith, length-append header (b ∷ sample))),
        adts_header_size-adts header (b ∷ sample) h,
        drop-append header (b ∷ sample),
      )
      (unfold aac_payloads in aac_payloads-layout (to_u32 access_unit.pts) b sample)
