-- ===== src/Avtp/TimestampMapper/Nearest.antt =====
-- ExpandNearest: the 32-bit time is unwrapped to the value nearest to the prediction.
use video_pipeline.Base.{
  ℕ, ◌+◌, ◌-◌, ◌*◌, ◌^◌, ◌<◌, ◌≡◌, refl, sym, subst, ◌∙◌, ◌⊎◌, inl, inr, true, false, arith,
  if◌then◌else◌, Bool-cases, ltb→lt, ltb-false→le,
}
use video_pipeline.Base.Int.{
  ℤ, pos, negsuc, pos_part, neg_part, ◌+ℤ◌, ◌-ℤ◌, ◌*ℤ◌, ◌≤ℤ◌, ltb_ℤ, abs_difference,
  abs_difference_lem, int_laws,
}
use video_pipeline.Avtp.TimestampMapper.{timestamp_modulo, trunc_div, floor_div, expand_nearest}

pub scaled_parts :
    (c : ℤ)
    → pos_part (c *ℤ pos timestamp_modulo) + neg_part c * 2 ^ 32
      ≡ neg_part (c *ℤ pos timestamp_modulo) + pos_part c * 2 ^ 32
unfolding ◌*ℤ◌
scaled_parts c = ground arith

-- FloorDiv rounds down for both signs.
pub floor_div_lem :
    (v : ℤ)
    → (floor_div v timestamp_modulo *ℤ pos timestamp_modulo ≤ℤ v)
      × (v +ℤ pos 1 ≤ℤ floor_div v timestamp_modulo *ℤ pos timestamp_modulo +ℤ pos timestamp_modulo)
unfolding floor_div trunc_div ◌*ℤ◌ ◌+ℤ◌ ◌-ℤ◌
floor_div_lem (pos n) = ground arith
floor_div_lem (negsuc n) = ground arith

-- The value is `a` in some cycle.
abbrev pub InCycle : ℕ → ℤ → Type 0
InCycle a e = (k : ℤ) × (e ≡ k *ℤ pos timestamp_modulo +ℤ pos a)

abbrev pub Within : ℕ → ℤ → ℤ → Type 0
Within d e p = (p ≤ℤ e +ℤ pos d) × (e ≤ℤ p +ℤ pos d)

-- The nearer of two values; the second where they are equally near.
abbrev nearer : ℤ → ℤ → ℤ → ℤ
nearer p x y = if ltb_ℤ (abs_difference x p) (abs_difference y p) then x else y

-- The test compares natural distances.
distance_lt :
    (p x y : ℤ) (d : ℕ)
    → ltb_ℤ (abs_difference x p) (abs_difference y p) ≡ true
    → Within d y p
    → Within d x p
distance_lt p x y d e h = omega (
  int_laws,
  abs_difference_lem x p,
  abs_difference_lem y p,
  ltb→lt (pos_part (abs_difference x p) + neg_part (abs_difference y p))
      (pos_part (abs_difference y p) + neg_part (abs_difference x p)) e,
)

distance_ge :
    (p x y : ℤ) (d : ℕ)
    → ltb_ℤ (abs_difference x p) (abs_difference y p) ≡ false
    → Within d x p
    → Within d y p
distance_ge p x y d e h = omega (
  int_laws,
  abs_difference_lem x p,
  abs_difference_lem y p,
  ltb-false→le (pos_part (abs_difference x p) + neg_part (abs_difference y p))
      (pos_part (abs_difference y p) + neg_part (abs_difference x p)) e,
)

nearer-Within : (p x y : ℤ) (d : ℕ) → Within d x p ⊎ Within d y p → Within d (nearer p x y) p
nearer-Within p x y d h = elim (Bool-cases (ltb_ℤ (abs_difference x p) (abs_difference y p))) [
  | inl e ↦ rw e (elim h [ inl l ↦ l | inr r ↦ distance_lt p x y d e r ])
  | inr e ↦ rw e (elim h [ inl l ↦ distance_ge p x y d e l | inr r ↦ r ])
]

one_near :
    (s p : ℤ) (a : ℕ)
    → s ≤ℤ p
    → p +ℤ pos 1 ≤ℤ s +ℤ pos timestamp_modulo
    → a < 2 ^ 32
    → Within (2 ^ 31) (s +ℤ pos a +ℤ pos timestamp_modulo) p
      ⊎ Within (2 ^ 31) (s +ℤ pos a -ℤ pos timestamp_modulo) p
      ⊎ Within (2 ^ 31) (s +ℤ pos a) p
one_near s p a lo hi h = omega int_laws

three_near :
    (s p : ℤ) (a : ℕ)
    → s ≤ℤ p
    → p +ℤ pos 1 ≤ℤ s +ℤ pos timestamp_modulo
    → a < 2 ^ 32
    → let candidate = s +ℤ pos a in
      Within
        (2 ^ 31)
        (nearer p
          (candidate +ℤ pos timestamp_modulo)
          (nearer p (candidate -ℤ pos timestamp_modulo) candidate))
        p
three_near s p a lo hi h =
    nearer-Within p _ _ (2 ^ 31) (elim (one_near s p a lo hi h) [
      | inl n ↦ inl n
      | inr m ↦ inr (nearer-Within p _ _ (2 ^ 31) m)
    ])

nearer-InCycle : (p x y : ℤ) (a : ℕ) → InCycle a x → InCycle a y → InCycle a (nearer p x y)
nearer-InCycle p x y a hx hy = elim (Bool-cases (ltb_ℤ (abs_difference x p) (abs_difference y p))) [
  | inl e ↦ rw e hx
  | inr e ↦ rw e hy
]

next-InCycle : (e : ℤ) (a : ℕ) → InCycle a e → InCycle a (e +ℤ pos timestamp_modulo)
next-InCycle e a (k, h) =
    (k +ℤ pos 1, rw h (omega (int_laws, scaled_parts k, scaled_parts (k +ℤ pos 1))))

previous-InCycle : (e : ℤ) (a : ℕ) → InCycle a e → InCycle a (e -ℤ pos timestamp_modulo)
previous-InCycle e a (k, h) =
    (k -ℤ pos 1, rw h (omega (int_laws, scaled_parts k, scaled_parts (k -ℤ pos 1))))

-- The result of ExpandNearest is the 32-bit time in some cycle, at most half a cycle from the
-- prediction.
expand_nearest-Within :
    (a : ℕ) (p : ℤ)
    → a < 2 ^ 32
    → InCycle a (expand_nearest a p) × Within (2 ^ 31) (expand_nearest a p) p
unfolding expand_nearest
expand_nearest-Within a p h =
    let (lo, hi) = floor_div_lem p in
    let c : InCycle a (floor_div p timestamp_modulo *ℤ pos timestamp_modulo +ℤ pos a) =
      (floor_div p timestamp_modulo, refl) in
    (
      nearer-InCycle p _ _ a (next-InCycle _ a c)
          (nearer-InCycle p _ _ a (previous-InCycle _ a c) c),
      three_near (floor_div p timestamp_modulo *ℤ pos timestamp_modulo) p a lo hi h,
    )

same_cycle :
    (k k' p : ℤ) (a : ℕ)
    → Within (2 ^ 31) (k *ℤ pos timestamp_modulo +ℤ pos a) p
    → Within (2 ^ 31 - 1) (k' *ℤ pos timestamp_modulo +ℤ pos a) p
    → k *ℤ pos timestamp_modulo +ℤ pos a ≡ k' *ℤ pos timestamp_modulo +ℤ pos a
same_cycle k k' p a n m = omega (int_laws, scaled_parts k, scaled_parts k')

-- The time line is recovered from its low 32 bits: if `e` has the low bits `a` and is less than half
-- a cycle from the prediction, ExpandNearest gives `e`.
pub expand_nearest-unwraps :
    (a : ℕ) (e p : ℤ) → a < 2 ^ 32 → InCycle a e → Within (2 ^ 31 - 1) e p → expand_nearest a p ≡ e
expand_nearest-unwraps a e p h (k, ek) (lo, hi) =
    let ((k', found), near) = expand_nearest-Within a p h in
    found
    ∙ same_cycle k' k p a (subst (λ x. Within (2 ^ 31) x p) found near)
        (subst (λ x. Within (2 ^ 31 - 1) x p) ek (lo, hi))
    ∙ sym ek
