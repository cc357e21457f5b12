-- ===== src/Media/Bitstream/ParameterSets.antt =====
-- ExtractParameterSets of h264_bitstream.cpp on an avcC record (ISO/IEC 14496-15).
use video_pipeline.Base.{
  ℕ, ◌+◌, ◌-◌, ◌%◌, ◌^◌, ◌≤◌, ◌<◌, ◌≡◌, refl, true, List, [], ◌∷◌, ◌++◌, some, arith, if◌then◌else◌,
  length, length-append, take-append, drop-append,
}
use video_pipeline.Media.Wire.{bytes, be16, read_u16-be16, All}
use video_pipeline.Media.Bitstream.{
  is_empty, read_sets, read_pps, extract_parameter_sets, looks_like_avcc_extradata,
  parse_avcc_length_size,
}

-- Sets behind sizes of two bytes, in front of `rest`.
abbrev pub sets_bytes : List (List ℕ) → List ℕ → List ℕ
sets_bytes [] rest = rest
sets_bytes (s ∷ ss) rest = be16 (length s) (s ++ sets_bytes ss rest)

-- The first set that is not empty.
abbrev pub first_set : List (List ℕ) → List ℕ
first_set [] = []
first_set (s ∷ ss) = if is_empty s then first_set ss else s

abbrev pub avcc_record : ℕ → ℕ → ℕ → ℕ → List (List ℕ) → List (List ℕ) → List ℕ
avcc_record profile compatibility level length_size sps pps =
    1
    ∷ profile
    ∷ compatibility
    ∷ level
    ∷ (0xfc + (length_size - 1))
    ∷ (0xe0 + length sps)
    ∷ sets_bytes sps (length pps ∷ sets_bytes pps [])

abbrev pub IsSet16 : List ℕ → Type 0
IsSet16 s = length s < 2 ^ 16

read_sets-sets_bytes :
    (ss : List (List ℕ)) (rest first : List ℕ)
    → All IsSet16 ss
    → read_sets (length ss) (sets_bytes ss rest) first
      ≡ some ((if is_empty first then first_set ss else first), rest)
unfolding read_sets
read_sets-sets_bytes [] rest [] h = refl
read_sets-sets_bytes [] rest (b ∷ first) h = refl
read_sets-sets_bytes (s ∷ ss) rest first (h, hs) =
    rw
      (
        read_u16-be16 (length s) (s ++ sets_bytes ss rest) h,
        take-append s (sets_bytes ss rest),
        drop-append s (sets_bytes ss rest),
      )
      (ground (
        arith,
        length-append s (sets_bytes ss rest),
        read_sets-sets_bytes ss rest (if is_empty first then s else first) hs,
      ))

read_pps-sets_bytes :
    (sps : List ℕ) (pps : List (List ℕ))
    → All IsSet16 pps
    → read_pps sps (length pps ∷ sets_bytes pps []) ≡ record { sps = sps; pps = first_set pps }
unfolding read_pps
read_pps-sets_bytes sps pps h = rw (read_sets-sets_bytes pps [] [] h, read_pps)

length-sets_bytes :
    (ss : List (List ℕ)) (b : ℕ) (rest : List ℕ) → 1 ≤ length (sets_bytes ss (b ∷ rest))
length-sets_bytes [] b rest = omega arith
length-sets_bytes (s ∷ ss) b rest = omega arith

module _ (profile compatibility level n : ℕ) (sps pps : List (List ℕ)) where
  looks_like_avcc-avcc_record :
      looks_like_avcc_extradata (bytes (avcc_record profile compatibility level n sps pps)) ≡ true
  unfolding looks_like_avcc_extradata
  looks_like_avcc-avcc_record =
      ground (arith, length-sets_bytes sps (length pps) (sets_bytes pps []))

  -- An avcC record with at most 31 SPS and 255 PPS gives the first SPS and the first PPS that are
  -- not empty, and its length size.
  pub extract_parameter_sets-avcc_record :
      1 ≤ n
      → n ≤ 4
      → length sps < 32
      → All IsSet16 sps
      → All IsSet16 pps
      → (extract_parameter_sets (avcc_record profile compatibility level n sps pps)
          ≡ record { sps = first_set sps; pps = first_set pps })
        × (parse_avcc_length_size (avcc_record profile compatibility level n sps pps) ≡ n)
  unfolding extract_parameter_sets parse_avcc_length_size
  extract_parameter_sets-avcc_record lo hi count hs hp =
      let masked : (0xe0 + length sps) % 2 ^ 5 ≡ length sps = omega arith in
      rw
        (
          looks_like_avcc-avcc_record,
          masked,
          read_sets-sets_bytes sps (length pps ∷ sets_bytes pps []) [] hs,
        )
        (read_pps-sets_bytes (first_set sps) pps hp, omega arith)
