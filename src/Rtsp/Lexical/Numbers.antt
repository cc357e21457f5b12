-- ===== src/Rtsp/Lexical/Numbers.antt =====
-- ParseUnsigned: a decimal number without sign and within the limit.
use video_pipeline.Base.{
  ℕ, ◌+◌, ◌-◌, ◌*◌, ◌/◌, ◌%◌, ◌^◌, ◌≤◌, ◌<◌, ◌≡◌, refl, inl, inr, Bool, true, false, not, ◌&&◌,
  ◌||◌, List, [], ◌∷◌, Option, none, some, arith, ltb, leb, if◌then◌else◌, Bool-cases,
}
use video_pipeline.Media.Bitstream.{is_empty}
use video_pipeline.Rtsp.Lexical.{all_of, is_digit, parse_digits, parse_unsigned}

-- The number that the digits write, behind the digits of a number.
abbrev pub decimal : ℕ → List ℕ → ℕ
decimal result [] = result
decimal result (c ∷ cs) = decimal (result * 10 + (c - 48)) cs

decimal-grows : (result : ℕ) (cs : List ℕ) → result ≤ decimal result cs
decimal-grows result [] = omega arith
decimal-grows result (c ∷ cs) = omega (arith, decimal-grows (result * 10 + (c - 48)) cs)

-- What ParseUnsigned should give.
abbrev reference : ℕ → List ℕ → ℕ → Option ℕ
reference maximum cs result =
    if all_of is_digit cs && leb (decimal result cs) maximum then some (decimal result cs) else none

false-first : (b : Bool) {c : Bool} → c ≡ false → (c && b) ≡ false
false-first b e = ground (arith, e)

digit-room :
    (maximum result digit : ℕ)
    → (ltb maximum digit || ltb ((maximum - digit) / 10) result) ≡ false
    → result * 10 + digit ≤ maximum
digit-room maximum result digit e = ground (arith, e)

digit-full :
    (maximum result digit : ℕ)
    → (ltb maximum digit || ltb ((maximum - digit) / 10) result) ≡ true
    → maximum < result * 10 + digit
digit-full maximum result digit e = ground (arith, e)

not-digit : (c : ℕ) → is_digit c ≡ not (ltb c 48 || ltb 57 c)
not-digit c = ground arith

parse_digits_lem :
    (maximum : ℕ) (cs : List ℕ) (result : ℕ)
    → maximum < 2 ^ 64
    → result ≤ maximum
    → parse_digits maximum cs result ≡ reference maximum cs result
unfolding parse_digits
parse_digits_lem maximum [] result small h = ground (arith, h)
parse_digits_lem maximum (c ∷ cs) result small h = elim (Bool-cases (ltb c 48 || ltb 57 c)) [
  | inl bad ↦ rw (not-digit c, bad) refl
  | inr digit ↦
      let e = not-digit c in
      elim (Bool-cases (ltb maximum (c - 48) || ltb ((maximum - (c - 48)) / 10) result)) [
        | inl full ↦
            let over = decimal-grows (result * 10 + (c - 48)) cs in
            let large = digit-full maximum result (c - 48) full in
            rw (e, digit, full) (ground (arith, over, large))
        | inr room ↦
            let fits = digit-room maximum result (c - 48) room in
            let exact : (result * 10 + (c - 48)) % 2 ^ 64 ≡ result * 10 + (c - 48) =
              omega (arith, fits, small) in
            rw (e, digit, room, exact)
              (parse_digits_lem maximum cs (result * 10 + (c - 48)) small fits)
      ]
]

-- For a limit below 2^64 ParseUnsigned accepts exactly the non-empty texts of decimal digits whose number is
-- within the limit, and gives that number: no step overflows.
pub parse_unsigned_lem :
    (value : List ℕ) (maximum : ℕ)
    → maximum < 2 ^ 64
    → parse_unsigned value maximum ≡ (
        if not (is_empty value) && all_of is_digit value && leb (decimal 0 value) maximum
        then some (decimal 0 value)
        else none)
unfolding parse_unsigned
parse_unsigned_lem [] maximum small = refl
parse_unsigned_lem (c ∷ cs) maximum small = parse_digits_lem maximum (c ∷ cs) 0 small (omega arith)
