-- ===== src/Rtsp/Lexical/Lines.antt =====
-- FindLineEnd when more bytes come.
use video_pipeline.Base.{
  ℕ, suc, ◌+◌, ◌-◌, ◌≤◌, ◌≡◌, ◌⊎◌, inl, inr, refl, sym, ◌∙◌, Bool, true, false, not, List, [], ◌∷◌,
  ◌++◌, arith, ◌==◌, if◌then◌else◌, length, length-append, Bool-cases,
}
use video_pipeline.Rtsp.Lexical.{
  complete, need_more_data, error, find_line_end_from, find_line_end, ends_in_cr,
  partial_line_length,
}

-- One for a CR at the end.
abbrev cr : Bool → ℕ
cr b = if b then 1 else 0

module _ (after_cr : Bool) (i b c : ℕ) (rest : List ℕ) where
  -- The loop on a byte that it passes over.
  from-passes :
      (b == 10) ≡ false
      → (b == 13) ≡ false
      → find_line_end_from after_cr i (b ∷ rest) ≡ find_line_end_from false (suc i) rest
  unfolding find_line_end_from
  from-passes e k = rw (e, k) refl

  from-cr :
      (b == 10) ≡ false
      → (b == 13) ≡ true
      → (c == 10) ≡ true
      → find_line_end_from after_cr i (b ∷ c ∷ rest) ≡ find_line_end_from true (suc i) (c ∷ rest)
  unfolding find_line_end_from
  from-cr e k l = rw (e, k, l) refl

  from-bare_cr :
      (b == 10) ≡ false
      → (b == 13) ≡ true
      → (c == 10) ≡ false
      → find_line_end_from after_cr i (b ∷ c ∷ rest) ≡ error i
  unfolding find_line_end_from
  from-bare_cr e k l = rw (e, k, l) refl

  from-lf :
      (b == 10) ≡ true
      → find_line_end_from after_cr i (b ∷ rest)
        ≡ (if not after_cr then error i else complete (i - 1))
  unfolding find_line_end_from
  from-lf e = rw e refl

error-complete : {i k : ℕ} → error i ≡ complete k → ⊥
error-complete e = ground (arith, e)

error-open : {i : ℕ} → error i ≡ need_more_data → ⊥
error-open e = ground (arith, e)

lf-closed :
    (after_cr : Bool) (i : ℕ) (rest : List ℕ)
    → (if not after_cr then error i else complete (i - 1)) ≡ need_more_data
    → ⊥
lf-closed after_cr i rest e = ground (arith, e)

lf-bounds :
    (after_cr : Bool) (i k : ℕ) (rest : List ℕ)
    → cr after_cr ≤ i
    → (if not after_cr then error i else complete (i - 1)) ≡ complete k
    → (i ≤ k + cr after_cr) × (k + 2 ≤ i + suc (length rest))
lf-bounds after_cr i k rest h e = ground (arith, e, h)

-- What is found stays found.
from-append :
    (after_cr : Bool) (i : ℕ) (rest more : List ℕ)
    → (find_line_end_from after_cr i rest ≡ need_more_data)
      ⊎ (find_line_end_from after_cr i (rest ++ more) ≡ find_line_end_from after_cr i rest)
unfolding find_line_end_from
from-append after_cr i [] more = inl refl
from-append after_cr i (b ∷ []) more = ground (arith, from-append (b == 13) (suc i) [] more)
from-append after_cr i (b ∷ c ∷ rest) more =
    ground (arith, from-append (b == 13) (suc i) (c ∷ rest) more)

-- Where a line ends: behind the byte before this offset, and two bytes before the end of the input.
from-bounds :
    (after_cr : Bool) (i : ℕ) (rest : List ℕ) (k : ℕ)
    → cr after_cr ≤ i
    → find_line_end_from after_cr i rest ≡ complete k
    → (i ≤ k + cr after_cr) × (k + 2 ≤ i + length rest)
unfolding find_line_end_from
from-bounds after_cr i [] k h e = absurd (ground (arith, e))
from-bounds after_cr i (b ∷ []) k h e = ground (arith, e, h)
from-bounds after_cr i (b ∷ c ∷ rest) k h e = elim (Bool-cases (b == 10)) [
  | inl lf ↦ lf-bounds after_cr i k (c ∷ rest) h (sym (from-lf after_cr i b c (c ∷ rest) lf) ∙ e)
  | inr other ↦ elim (Bool-cases (b == 13)) [
    | inr plain ↦
        let (low, high) =
          from-bounds false (suc i) (c ∷ rest) k (omega arith)
            (sym (from-passes after_cr i b c (c ∷ rest) other plain) ∙ e) in
        (omega (arith, low), omega (arith, high))
    | inl is_cr ↦ elim (Bool-cases (c == 10)) [
      | inl lf ↦
          let (low, high) =
            from-bounds true (suc i) (c ∷ rest) k (omega arith)
              (sym (from-cr after_cr i b c rest other is_cr lf) ∙ e) in
          (omega (arith, low), omega (arith, high))
      | inr bare ↦
          absurd (error-complete (sym (from-bare_cr after_cr i b c rest other is_cr bare) ∙ e))
    ]
  ]
]

one-grows :
    (after_cr : Bool) (i b : ℕ) (more : List ℕ) (k : ℕ)
    → (b == 10) ≡ false
    → (b == 13) ≡ true
    → find_line_end_from after_cr i (b ∷ more) ≡ complete k
    → i ≤ k
unfolding find_line_end_from
one-grows after_cr i b [] k other is_cr g = absurd (ground (arith, other, is_cr, g))
one-grows after_cr i b (c ∷ more) k other is_cr g = elim (Bool-cases (c == 10)) [
  | inl lf ↦
      let (low, _) =
        from-bounds true (suc i) (c ∷ more) k (omega arith)
          (sym (from-cr after_cr i b c more other is_cr lf) ∙ g) in
      omega (arith, low)
  | inr bare ↦ absurd (error-complete (sym (from-bare_cr after_cr i b c more other is_cr bare) ∙ g))
]

-- A line that was not complete ends no earlier than its bytes, but for a CR at the end.
from-grows :
    (after_cr : Bool) (i : ℕ) (rest more : List ℕ) (k : ℕ)
    → cr after_cr ≤ i
    → find_line_end_from after_cr i rest ≡ need_more_data
    → find_line_end_from after_cr i (rest ++ more) ≡ complete k
    → i + length rest ≤ k + cr (ends_in_cr after_cr rest)
unfolding find_line_end_from ends_in_cr
from-grows after_cr i [] more k h e g = omega (arith, (from-bounds after_cr i more k h g).0)
from-grows after_cr i (b ∷ []) more k h e g = elim (Bool-cases (b == 10)) [
  | inl lf ↦ absurd (lf-closed after_cr i ([]) (sym (from-lf after_cr i b 0 [] lf) ∙ e))
  | inr other ↦ elim (Bool-cases (b == 13)) [
    | inr plain ↦
        let (low, _) =
          from-bounds false (suc i) more k (omega arith)
            (sym (from-passes after_cr i b 0 more other plain) ∙ g) in
        rw plain (omega (arith, low))
    | inl is_cr ↦ rw is_cr (omega (arith, one-grows after_cr i b more k other is_cr g))
  ]
]
from-grows after_cr i (b ∷ c ∷ rest) more k h e g = elim (Bool-cases (b == 10)) [
  | inl lf ↦
      absurd (lf-closed after_cr i (c ∷ rest) (sym (from-lf after_cr i b c (c ∷ rest) lf) ∙ e))
  | inr other ↦ elim (Bool-cases (b == 13)) [
    | inr plain ↦
        let low =
          from-grows false (suc i) (c ∷ rest) more k (omega arith)
            (sym (from-passes after_cr i b c (c ∷ rest) other plain) ∙ e)
            (sym (from-passes after_cr i b c (c ∷ rest ++ more) other plain) ∙ g) in
        omega (arith, low)
    | inl is_cr ↦ elim (Bool-cases (c == 10)) [
      | inl lf ↦
          let low =
            from-grows true (suc i) (c ∷ rest) more k (omega arith)
              (sym (from-cr after_cr i b c rest other is_cr lf) ∙ e)
              (sym (from-cr after_cr i b c (rest ++ more) other is_cr lf) ∙ g) in
          omega (arith, low)
      | inr bare ↦ absurd (error-open (sym (from-bare_cr after_cr i b c rest other is_cr bare) ∙ e))
    ]
  ]
]

pub find_line_end-append :
    (rest more : List ℕ)
    → (find_line_end rest ≡ need_more_data) ⊎ (find_line_end (rest ++ more) ≡ find_line_end rest)
unfolding find_line_end
find_line_end-append rest more = from-append false 0 rest more

pub find_line_end-bounds :
    (rest : List ℕ) (k : ℕ) → find_line_end rest ≡ complete k → k + 2 ≤ length rest
unfolding find_line_end
find_line_end-bounds rest k e = omega (arith, (from-bounds false 0 rest k (omega arith) e).1)

-- When the rest of a line comes, the line is at least as long as the part that was there.
pub find_line_end-grows :
    (rest more : List ℕ) (k : ℕ)
    → find_line_end rest ≡ need_more_data
    → find_line_end (rest ++ more) ≡ complete k
    → (partial_line_length rest ≤ k) × (length rest ≤ k + 1)
unfolding find_line_end partial_line_length
find_line_end-grows rest more k e g =
    let low = from-grows false 0 rest more k (omega arith) e g in ground (arith, low)

pub partial-between :
    (rest : List ℕ)
    → (length rest ≤ partial_line_length rest + 1) × (partial_line_length rest ≤ length rest)
unfolding partial_line_length
partial-between rest = ground arith

pub partial-append :
    (rest : List ℕ) (b : ℕ) (more : List ℕ)
    → partial_line_length rest ≤ partial_line_length (rest ++ b ∷ more)
partial-append rest b more =
    omega (
      arith,
      partial-between rest,
      partial-between (rest ++ b ∷ more),
      length-append rest (b ∷ more),
    )
