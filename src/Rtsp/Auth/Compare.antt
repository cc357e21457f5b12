-- ===== src/Rtsp/Auth/Compare.antt =====
-- ConstantTimeEquals against the equality of texts.
use Prim.Native.Nat.{bit_or, bit_xor}
use video_pipeline.Base.{
  ℕ, ◌+◌, ◌%◌, ◌^◌, ◌<◌, ◌≡◌, ◌↔◌, refl, ap, ap₂, sym, subst, ◌∙◌, true, [], ◌∷◌, arith, ==_iff,
  length,
}
use video_pipeline.Base.Text.{Text}
use video_pipeline.Base.Xor.{bit_xor-low, bit_or-low, bit_xor_self}
use video_pipeline.Media.Wire.{IsByte, All}
use video_pipeline.Rtsp.Auth.{differences, constant_time_equals}

-- The texts are the same but for zeros at the end of one of them.
abbrev Padded : Text → Text → Type 0
Padded [] [] = Unit
Padded (a ∷ lhs) [] = (a ≡ 0) × Padded lhs []
Padded [] (b ∷ rhs) = (b ≡ 0) × Padded [] rhs
Padded (a ∷ lhs) (b ∷ rhs) = (a ≡ b) × Padded lhs rhs

-- A round that finds no difference.
no_difference :
    (d a b : ℕ)
    → IsByte a
    → IsByte b
    → bit_or d (bit_xor a b) % 2 ^ 8 % 2 ^ 8 ≡ 0
    → (d % 2 ^ 8 ≡ 0) × (a ≡ b)
no_difference d a b ha hb h =
    let (x, y) = bit_or-low d (bit_xor a b) (omega arith) in (x, omega (arith, bit_xor-low a b y))

differences-zero :
    (d : ℕ) (lhs rhs : Text)
    → All IsByte lhs
    → All IsByte rhs
    → differences d lhs rhs % 2 ^ 8 ≡ 0
    → (d % 2 ^ 8 ≡ 0) × Padded lhs rhs
unfolding differences
differences-zero d [] [] hl hr h = (h, tt)
differences-zero d (a ∷ lhs) [] (ha, hl) hr h =
    let (e, p) = differences-zero (bit_or d (bit_xor a 0) % 2 ^ 8) lhs [] hl hr h in
    let (x, y) = no_difference d a 0 ha (omega arith) e in (x, (y, p))
differences-zero d [] (b ∷ rhs) hl (hb, hr) h =
    let (e, p) = differences-zero (bit_or d (bit_xor 0 b) % 2 ^ 8) [] rhs hl hr h in
    let (x, y) = no_difference d 0 b (omega arith) hb e in (x, (sym y, p))
differences-zero d (a ∷ lhs) (b ∷ rhs) (ha, hl) (hb, hr) h =
    let (e, p) = differences-zero (bit_or d (bit_xor a b) % 2 ^ 8) lhs rhs hl hr h in
    let (x, y) = no_difference d a b ha hb e in (x, (y, p))

Padded-eq : (lhs rhs : Text) → Padded lhs rhs → length lhs ≡ length rhs → lhs ≡ rhs
Padded-eq [] [] p e = refl
Padded-eq (a ∷ lhs) [] p e = absurd (omega (arith, e))
Padded-eq [] (b ∷ rhs) p e = absurd (omega (arith, e))
Padded-eq (a ∷ lhs) (b ∷ rhs) (x, p) e = ap₂ ◌∷◌ x (Padded-eq lhs rhs p (omega (arith, e)))

differences_self : (text : Text) → differences 0 text text ≡ 0
unfolding differences
differences_self [] = refl
differences_self (a ∷ text) =
    ap (λ x. differences (bit_or 0 x % 2 ^ 8) text text) (bit_xor_self a) ∙ differences_self text

equal_to_itself : (text : Text) → constant_time_equals text text ≡ true
unfolding constant_time_equals
equal_to_itself text = (==_iff _ 0).1 (
    ap (λ x. differences (x % 2 ^ 8) text text) (bit_xor_self (length text))
    ∙ differences_self text)

-- On texts of bytes whose lengths are less than 256 apart ConstantTimeEquals tells whether they are equal.
pub constant_time_equals_iff :
    (lhs rhs : Text)
    → All IsByte lhs
    → All IsByte rhs
    → length lhs < length rhs + 256
    → length rhs < length lhs + 256
    → (constant_time_equals lhs rhs ≡ true) ↔ (lhs ≡ rhs)
unfolding constant_time_equals
constant_time_equals_iff lhs rhs hl hr near near' = (
  λ h.
      let none_found = (==_iff _ 0).0 h in
      let (e, p) = differences-zero _ lhs rhs hl hr (ap (λ x. x % 2 ^ 8) none_found) in
      let sizes = bit_xor-low (length lhs) (length rhs) (omega (arith, e)) in
      Padded-eq lhs rhs p (omega (arith, sizes)),
  λ e. subst (λ t. constant_time_equals lhs t ≡ true) e (equal_to_itself lhs),
)
