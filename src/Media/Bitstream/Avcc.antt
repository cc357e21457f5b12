-- ===== src/Media/Bitstream/Avcc.antt =====
-- SplitAvcc of h264_bitstream.cpp: NAL units behind big-endian length fields.
use video_pipeline.Base.{
  ℕ, zero, suc, ◌+◌, ◌*◌, ◌/◌, ◌%◌, ◌^◌, ◌≤◌, ◌<◌, ◌≡◌, refl, sym, ap, ap₂, subst, ◌∙◌, false, List,
  [], ◌∷◌, ◌++◌, append-nil, append_assoc, arith, length, drop, length-append, take-append,
  drop-append,
}
use video_pipeline.Media.Wire.{bytes, IsByte, All}
use video_pipeline.Media.Bitstream.{NalUnit, is_empty, read_be_length, split_avcc_from, split_avcc}

-- The `n` bytes of a length field.
abbrev pub be_bytes : ℕ → ℕ → List ℕ
be_bytes zero v = []
be_bytes (suc n) v = (v / 256 ^ n % 2 ^ 8) ∷ be_bytes n v

-- The AVCC form of NAL units.
abbrev pub avcc_bytes : ℕ → List NalUnit → List ℕ
avcc_bytes n [] = []
avcc_bytes n (nal ∷ nals) = be_bytes n (length nal) ++ (nal ++ avcc_bytes n nals)

abbrev pub IsLengthSize : ℕ → Type 0
IsLengthSize n = (1 ≤ n) × (n ≤ 4)

-- A NAL unit that a length field of `n` bytes can stand for.
abbrev pub Fits : ℕ → NalUnit → Type 0
Fits n nal = (1 ≤ length nal) × (length nal < 256 ^ n)

length-be_bytes : (n v : ℕ) → length (be_bytes n v) ≡ n
length-be_bytes zero v = refl
length-be_bytes (suc n) v = ap suc (length-be_bytes n v)

module _ (a b c d : ℕ) (rest : List ℕ) (ha : IsByte a) (hb : IsByte b) (hc : IsByte c) where
  read_one : read_be_length 1 (a ∷ rest) 0 ≡ a
  unfolding read_be_length
  read_one = omega arith

  read_two : read_be_length 2 (a ∷ b ∷ rest) 0 ≡ a * 2 ^ 8 + b
  unfolding read_be_length
  read_two = omega arith

  read_three : read_be_length 3 (a ∷ b ∷ c ∷ rest) 0 ≡ a * 2 ^ 16 + b * 2 ^ 8 + c
  unfolding read_be_length
  read_three = omega arith

  read_four : read_be_length 4 (a ∷ b ∷ c ∷ d ∷ rest) 0 ≡ a * 2 ^ 24 + b * 2 ^ 16 + c * 2 ^ 8 + d
  unfolding read_be_length
  read_four = omega arith

-- Reading a length field that was written.
read_be_length-be_bytes :
    (n v : ℕ) (rest : List ℕ)
    → IsLengthSize n
    → v < 256 ^ n
    → read_be_length n (be_bytes n v ++ rest) 0 ≡ v
read_be_length-be_bytes zero v rest h lt = absurd (omega arith)
read_be_length-be_bytes (suc zero) v rest h lt =
    read_one (v / 256 ^ 0 % 2 ^ 8) 0 0 0 rest (omega arith) (omega arith) (omega arith)
    ∙ omega arith
read_be_length-be_bytes (suc (suc zero)) v rest h lt =
    read_two (v / 256 ^ 1 % 2 ^ 8) (v / 256 ^ 0 % 2 ^ 8) 0 0 rest (omega arith) (omega arith)
      (omega arith)
    ∙ omega arith
read_be_length-be_bytes (suc (suc (suc zero))) v rest h lt =
    read_three (v / 256 ^ 2 % 2 ^ 8) (v / 256 ^ 1 % 2 ^ 8) (v / 256 ^ 0 % 2 ^ 8) 0 rest
      (omega arith) (omega arith) (omega arith)
    ∙ omega arith
read_be_length-be_bytes (suc (suc (suc (suc zero)))) v rest h lt =
    read_four (v / 256 ^ 3 % 2 ^ 8) (v / 256 ^ 2 % 2 ^ 8) (v / 256 ^ 1 % 2 ^ 8)
      (v / 256 ^ 0 % 2 ^ 8) rest (omega arith) (omega arith) (omega arith)
    ∙ omega arith
read_be_length-be_bytes (suc (suc (suc (suc (suc n))))) v rest h lt = absurd (omega arith)

-- Writing a length field that was read.
pub be_bytes-read_be_length :
    (n : ℕ) (p : List ℕ)
    → IsLengthSize n
    → n ≤ length p
    → All IsByte p
    → be_bytes n (read_be_length n p 0) ++ drop n p ≡ p
be_bytes-read_be_length (suc zero) (a ∷ p) h lt (ha, _) =
    rw (read_one a 0 0 0 p ha (omega arith) (omega arith)) (ap (λ x. x ∷ p) (omega arith))
be_bytes-read_be_length (suc (suc zero)) (a ∷ b ∷ p) h lt (ha, (hb, _)) =
    rw (read_two a b 0 0 p ha hb (omega arith)) (ap₂ (λ x y. x ∷ y ∷ p) (omega arith) (omega arith))
be_bytes-read_be_length (suc (suc (suc zero))) (a ∷ b ∷ c ∷ p) h lt (ha, (hb, (hc, _))) =
    rw (read_three a b c 0 p ha hb hc)
      (ap₂ (λ x y. x ∷ y) (omega arith) (ap₂ (λ x y. x ∷ y ∷ p) (omega arith) (omega arith)))
be_bytes-read_be_length (suc (suc (suc (suc zero)))) (a ∷ b ∷ c ∷ d ∷ p) h lt
      (ha, (hb, (hc, (hd, _)))) =
    rw (read_four a b c d p ha hb hc) (
      ap₂ (λ x y. x ∷ y) (omega arith)
        (ap₂ (λ x y. x ∷ y) (omega arith) (ap₂ (λ x y. x ∷ y ∷ p) (omega arith) (omega arith))))
be_bytes-read_be_length n p h lt b = absurd (omega arith)

pub is_empty-eq-false : (p : List ℕ) → 1 ≤ length p → is_empty p ≡ false
is_empty-eq-false [] h = absurd (omega arith)
is_empty-eq-false (b ∷ p) h = refl

drop-be_bytes : (n v : ℕ) (after : List ℕ) → drop n (be_bytes n v ++ after) ≡ after
drop-be_bytes n v after =
    subst (λ k. drop k (be_bytes n v ++ after) ≡ after) (length-be_bytes n v)
      (drop-append (be_bytes n v) after)

module _ (n : ℕ) (size : IsLengthSize n) where
  one_nal :
      (fuel : ℕ) (nal : NalUnit) (after : List ℕ) (nals : List NalUnit)
      → Fits n nal
      → split_avcc_from (suc fuel) n (be_bytes n (length nal) ++ (nal ++ after)) nals
        ≡ split_avcc_from fuel n after (nals ++ (nal ∷ []))
  unfolding split_avcc_from
  one_nal fuel nal after nals fits =
      rw
        (
          read_be_length-be_bytes n (length nal) (nal ++ after) size fits.1,
          drop-be_bytes n (length nal) (nal ++ after),
          take-append nal after,
          drop-append nal after,
        )
        (ground (
          arith,
          length-append (be_bytes n (length nal)) (nal ++ after),
          length-append nal after,
          length-be_bytes n (length nal),
        ))

  split_avcc_from-avcc_bytes :
      (fuel : ℕ) (nals before : List NalUnit)
      → All (Fits n) nals
      → length (avcc_bytes n nals) ≤ fuel
      → split_avcc_from fuel n (avcc_bytes n nals) before ≡ before ++ nals
  split_avcc_from-avcc_bytes zero [] before fits h =
      unfold split_avcc_from in sym (append-nil before)
  split_avcc_from-avcc_bytes (suc fuel) [] before fits h =
      rw (append-nil before) (unfold split_avcc_from in ground arith)
  split_avcc_from-avcc_bytes zero (nal ∷ nals) before (fit, fits) h = absurd (
      omega (
        arith,
        length-append (be_bytes n (length nal)) (nal ++ avcc_bytes n nals),
        length-append nal (avcc_bytes n nals),
      ))
  split_avcc_from-avcc_bytes (suc fuel) (nal ∷ nals) before (fit, fits) h =
      one_nal fuel nal (avcc_bytes n nals) before fit
      ∙ split_avcc_from-avcc_bytes fuel nals (before ++ (nal ∷ [])) fits (
          omega (
            arith,
            length-append (be_bytes n (length nal)) (nal ++ avcc_bytes n nals),
            length-append nal (avcc_bytes n nals),
          ))
      ∙ append_assoc before (nal ∷ []) nals

  -- NAL units that their length fields can describe are found again in their AVCC form.
  pub split_avcc-avcc_bytes :
      (nals : List NalUnit) → All (Fits n) nals → split_avcc (bytes (avcc_bytes n nals)) n ≡ nals
  unfolding split_avcc
  split_avcc-avcc_bytes [] fits = refl
  split_avcc-avcc_bytes (nal ∷ nals) (fit, fits) =
      let filled : is_empty (avcc_bytes n (nal ∷ nals)) ≡ false =
        is_empty-eq-false (avcc_bytes n (nal ∷ nals)) (
          omega (
            arith,
            length-append (be_bytes n (length nal)) (nal ++ avcc_bytes n nals),
            length-append nal (avcc_bytes n nals),
          )) in
      rw filled (
        ground (
          arith,
          split_avcc_from-avcc_bytes (length (avcc_bytes n (nal ∷ nals))) (nal ∷ nals) []
              (fit, fits) (omega arith),
        ))
