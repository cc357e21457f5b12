-- ===== src/Media/Bitstream/AvccSound.antt =====
-- SplitAvcc of h264_bitstream.cpp: what it accepts is the AVCC form of what it returns.
use video_pipeline.Base.{
  ℕ, zero, suc, ◌≤◌, ◌≡◌, ◌≢◌, refl, sym, ◌∙◌, ◌⊎◌, inl, inr, false, List, [], ◌∷◌, ◌++◌,
  append-nil, append_assoc, arith, ltb, ◌==◌, ◌||◌, if◌then◌else◌, length, take, drop, length-take,
  take-append-drop, Bool-cases,
}
use video_pipeline.Media.Wire.{bytes, IsByte, All, All-drop}
use video_pipeline.Media.Bitstream.{NalUnit, is_empty, read_be_length, split_avcc_from, split_avcc}
use video_pipeline.Media.Bitstream.Avcc.{avcc_bytes, IsLengthSize, be_bytes-read_be_length}

module _ (n : ℕ) (valid : IsLengthSize n) where
  -- What the loop returns is nothing, or what it had and the NAL units whose AVCC form is `rest`.
  abbrev Splits : List ℕ → List NalUnit → List NalUnit → Type 0
  Splits rest before r =
      (r ≡ [])
      ⊎ ((new : List NalUnit) × (r ≡ before ++ new)
          × (avcc_bytes n new ≡ rest)
          × All (λ nal. 1 ≤ length nal) new)

  ended-Splits :
      (rest : List ℕ) (before : List NalUnit)
      → Splits rest before (if is_empty rest then before else [])
  ended-Splits [] before = inr ([], sym (append-nil before), refl, tt)
  ended-Splits (b ∷ rest) before = inl refl

  extend-Splits :
      (rest : List ℕ) (before r : List NalUnit) (k : ℕ)
      → All IsByte rest
      → n ≤ length rest
      → read_be_length n rest 0 ≡ k
      → 1 ≤ k
      → k ≤ length (drop n rest)
      → Splits (drop k (drop n rest)) (before ++ (take k (drop n rest) ∷ [])) r
      → Splits rest before r
  extend-Splits rest before r k b long e low fits (inl none) = inl none
  extend-Splits rest before r k b long e low fits (inr (new, er, ec, all)) =
      let nal = take k (drop n rest) in
      let size : length nal ≡ k = omega (arith, length-take k (drop n rest)) in
      inr (
        nal ∷ new,
        er ∙ append_assoc before (nal ∷ []) new,
        rw (size, ec, take-append-drop k (drop n rest), ← e)
            (be_bytes-read_be_length n rest valid long b),
        (omega arith, all),
      )

  split_avcc_from-Splits :
      (fuel : ℕ) (rest : List ℕ) (before : List NalUnit)
      → All IsByte rest
      → Splits rest before (split_avcc_from fuel n rest before)
  unfolding split_avcc_from
  split_avcc_from-Splits zero rest before h = ended-Splits rest before
  split_avcc_from-Splits (suc fuel) rest before h =
      let k = read_be_length n rest 0 in
      let body = drop n rest in
      elim (Bool-cases (ltb (length rest) n)) [
        | inl short ↦ rw short (ended-Splits rest before)
        | inr long ↦ elim (Bool-cases (k == 0 || ltb (length body) k)) [
          | inl bad ↦ rw (long, bad) (inl refl)
          | inr good ↦
              rw (long, good)
                (extend-Splits rest before _ k h (ground arith) refl (ground arith) (ground arith) (
                  split_avcc_from-Splits fuel (drop k body) (before ++ (take k body ∷ []))
                    (All-drop IsByte k body (All-drop IsByte n rest h))))
        ]
      ]

split_avcc-Splits :
    (n : ℕ) (valid : IsLengthSize n) (p : List ℕ)
    → All IsByte p
    → Splits n valid p [] (split_avcc (bytes p) n)
unfolding split_avcc
split_avcc-Splits n valid [] h = inl refl
split_avcc-Splits n valid (b ∷ p) h =
    let accepted : (ltb n 1 || ltb 4 n) ≡ false = ground arith in
    rw accepted (split_avcc_from-Splits n valid (length (b ∷ p)) (b ∷ p) [] h)

-- Whatever is returned that is not empty accounts for every byte of the input: its AVCC form, with
-- length fields of `n` bytes, is the input, and no NAL unit is empty.
pub split_avcc_sound :
    (n : ℕ) (p : List ℕ)
    → IsLengthSize n
    → All IsByte p
    → split_avcc (bytes p) n ≢ []
    → (avcc_bytes n (split_avcc (bytes p) n) ≡ p)
      × All (λ nal. 1 ≤ length nal) (split_avcc (bytes p) n)
split_avcc_sound n p valid h some_nal = elim (split_avcc-Splits n valid p h) [
  | inl nothing ↦ absurd (some_nal nothing)
  | inr (new, e, c, all) ↦ rw e (c, all)
]
