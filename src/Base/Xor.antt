-- ===== src/Base/Xor.antt =====
-- `|` and `^` on numbers: what it takes for a result to have only zeros in its low digits.
use Prim.Native.Nat.{
  ℕ, zero, suc, ◌+◌, ◌*◌, ◌/◌, ◌%◌, ◌^◌, ◌≤◌, ◌<◌, max, bit_or, bit_xor, digits, differ,
  bit_or-bitwise, bit_xor-bitwise,
}
use mathlib.Core.Path.{◌≡◌, refl, sym, subst, ◌∙◌}
use native.Mathlib.Omega.{arith}

-- The lowest digits, as many as the first number says, are zeros.
abbrev Zeros : ℕ → ℕ → Type 0
Zeros zero a = Unit
Zeros (suc k) a = (a % 2 ≡ 0) × Zeros k (a / 2)

abbrev Agree : ℕ → ℕ → ℕ → Type 0
Agree zero a b = Unit
Agree (suc k) a b = (a % 2 ≡ b % 2) × Agree k (a / 2) (b / 2)

Zeros-zero : (k : ℕ) → Zeros k 0
Zeros-zero zero = tt
Zeros-zero (suc k) = (refl, Zeros-zero k)

Zeros-Agree : (k b : ℕ) → Zeros k b → Agree k 0 b
Zeros-Agree zero b h = tt
Zeros-Agree (suc k) b (e, h) = (omega arith, Zeros-Agree k (b / 2) h)

differ-lt : (x y : ℕ) → x < 2 → y < 2 → differ x y < 2
differ-lt zero y h k = k
differ-lt (suc zero) zero h k = omega arith
differ-lt (suc zero) (suc zero) h k = omega arith
differ-lt (suc zero) (suc (suc y)) h k = absurd (omega arith)
differ-lt (suc (suc x)) y h k = absurd (omega arith)

differ-zero : (x y : ℕ) → x < 2 → y < 2 → differ x y ≡ 0 → x ≡ y
differ-zero zero y h k e = sym e
differ-zero (suc zero) zero h k e = e
differ-zero (suc zero) (suc zero) h k e = refl
differ-zero (suc zero) (suc (suc y)) h k e = absurd (omega arith)
differ-zero (suc (suc x)) y h k e = absurd (omega arith)

-- The digits of a number that ends in a digit.
quotient : (d r : ℕ) → r < 2 → (d * 2 + r) / 2 ≡ d
quotient d r h = omega arith

xor-Zeros : (n k a b : ℕ) → a ≤ n → Zeros k (digits (λ b. b) differ n a b) → Agree k a b
xor-Zeros n zero a b h z = tt
xor-Zeros zero (suc k) zero b h z = Zeros-Agree (suc k) b z
xor-Zeros zero (suc k) (suc a) b h z = absurd (omega arith)
xor-Zeros (suc n) (suc k) zero b h z = Zeros-Agree (suc k) b z
xor-Zeros (suc n) (suc k) (suc a) b h (e, z) =
    let d = digits (λ b. b) differ n (suc a / 2) (b / 2) in
    let r = differ (suc a % 2) (b % 2) in
    let small : r < 2 = differ-lt (suc a % 2) (b % 2) (omega arith) (omega arith) in
    (
      differ-zero (suc a % 2) (b % 2) (omega arith) (omega arith) (omega (arith, e, small)),
      xor-Zeros n k (suc a / 2) (b / 2) (omega arith) (subst (Zeros k) (quotient d r small) z),
    )

max_zero : (x y : ℕ) → max x y ≡ 0 → (x ≡ 0) × (y ≡ 0)
max_zero x y e = (omega arith, omega arith)

or-Zeros : (n k a b : ℕ) → a ≤ n → Zeros k (digits (λ b. b) max n a b) → Zeros k a × Zeros k b
or-Zeros n zero a b h z = (tt, tt)
or-Zeros zero (suc k) zero b h z = (Zeros-zero (suc k), z)
or-Zeros zero (suc k) (suc a) b h z = absurd (omega arith)
or-Zeros (suc n) (suc k) zero b h z = (Zeros-zero (suc k), z)
or-Zeros (suc n) (suc k) (suc a) b h (e, z) =
    let d = digits (λ b. b) max n (suc a / 2) (b / 2) in
    let r = max (suc a % 2) (b % 2) in
    let small : r < 2 = omega arith in
    let (x, y) = max_zero (suc a % 2) (b % 2) (omega (arith, e, small)) in
    let (u, v) =
      or-Zeros n k (suc a / 2) (b / 2) (omega arith) (subst (Zeros k) (quotient d r small) z) in
    ((x, u), (y, v))

low_are_zero : (x : ℕ) → x % 2 ^ 8 ≡ 0 → Zeros 8 x
low_are_zero x h = (
  omega arith,
  (
    omega arith,
    (omega arith, (omega arith, (omega arith, (omega arith, (omega arith, (omega arith, tt)))))),
  ),
)

Agree-low : (a b : ℕ) → Agree 8 a b → a % 2 ^ 8 ≡ b % 2 ^ 8
Agree-low a b h = omega arith

Zeros-low : (a : ℕ) → Zeros 8 a → a % 2 ^ 8 ≡ 0
Zeros-low a h = omega arith

pub bit_xor-low : (a b : ℕ) → bit_xor a b % 2 ^ 8 ≡ 0 → a % 2 ^ 8 ≡ b % 2 ^ 8
bit_xor-low a b h = Agree-low a b (
    xor-Zeros a 8 a b (omega arith)
      (subst (Zeros 8) (bit_xor-bitwise a b) (low_are_zero (bit_xor a b) h)))

pub bit_or-low : (a b : ℕ) → bit_or a b % 2 ^ 8 ≡ 0 → (a % 2 ^ 8 ≡ 0) × (b % 2 ^ 8 ≡ 0)
bit_or-low a b h =
    let (u, v) =
      or-Zeros a 8 a b (omega arith)
        (subst (Zeros 8) (bit_or-bitwise a b) (low_are_zero (bit_or a b) h)) in
    (Zeros-low a u, Zeros-low b v)

differ_self : (x : ℕ) → differ x x ≡ 0
differ_self zero = refl
differ_self (suc x) = differ_self x

xor_self : (n a : ℕ) → a ≤ n → digits (λ b. b) differ n a a ≡ 0
xor_self zero zero h = refl
xor_self zero (suc a) h = absurd (omega arith)
xor_self (suc n) zero h = refl
xor_self (suc n) (suc a) h =
    omega (arith, xor_self n (suc a / 2) (omega arith), differ_self (suc a % 2))

pub bit_xor_self : (a : ℕ) → bit_xor a a ≡ 0
bit_xor_self a = bit_xor-bitwise a a ∙ xor_self a a (omega arith)
