-- ===== src/Rtsp/Auth/Rounds.antt =====
-- ParseDigestParameters: each round of its loop takes characters, so the loop ends.
use video_pipeline.Base.{
  ℕ, zero, suc, ◌-◌, ◌≤◌, ◌<◌, ◌≡◌, subst, inl, inr, Bool, true, false, not, ◌||◌, [], ◌∷◌, ◌++◌,
  Option, none, some, arith, ◌==◌, length, drop, get_or, length-drop, Bool-cases, Option-cases,
}
use video_pipeline.Base.Text.{Text}
use video_pipeline.Media.Bitstream.{is_empty}
use video_pipeline.Rtsp.Lexical.{◌>>=◌, is_blank, trim_back}
use video_pipeline.Rtsp.Auth.{
  skip, span, quoted, unquoted, Parameters, parameter, absent, value_of, close_parameter,
  one_parameter, parameters_from, parse_digest_parameters,
}

abbrev no_comma : ℕ → Bool
no_comma ch = not (ch == b',')

-- What is left is within so many characters.
abbrev Leaves {ℓ} : {A : Type ℓ} → ℕ → Option (A × Text) → Type 0
Leaves n none = Unit
Leaves n (some (_, rest)) = length rest ≤ n

Leaves-more {ℓ} : {A : Type ℓ} (m n : ℕ) (o : Option (A × Text)) → m ≤ n → Leaves m o → Leaves n o
Leaves-more m n none h l = tt
Leaves-more m n (some _) h l = omega (arith, h, l)

length-skip : (test : ℕ → Bool) (text : Text) → length (skip test text) ≤ length text
length-skip test [] = omega arith
length-skip test (ch ∷ rest) = elim (Bool-cases (test ch)) [
  | inl e ↦ rw e (omega (arith, length-skip test rest))
  | inr e ↦ rw e (omega arith)
]

span-skip :
    (test : ℕ → Bool) (text : Text)
    → is_empty (span test text) ≡ false
    → length (skip test text) < length text
span-skip test [] h = absurd (cc)
span-skip test (ch ∷ rest) h = elim (Bool-cases (test ch)) [
  | inl e ↦ rw e (omega (arith, length-skip test rest))
  | inr e ↦ let bad : true ≡ false = rw e at h in absurd (cc)
]

-- A further character before the text that was read.
Leaves-map :
    (n c : ℕ) (o : Option (Text × Text))
    → Leaves n o
    → Leaves n (do (text, left) ← o; some (c ∷ text, left))
Leaves-map n c none l = tt
Leaves-map n c (some (text, left)) l = l

quoted-Leaves : (text : Text) → Leaves (length text) (quoted text)
unfolding quoted
quoted-Leaves [] = tt
quoted-Leaves (ch ∷ []) = elim (Bool-cases (ch == b'"')) [
  | inl e ↦ rw e (omega arith)
  | inr e ↦ rw e tt
]
quoted-Leaves (ch ∷ c ∷ rest) =
    let n = length (ch ∷ c ∷ rest) in
    let escaped =
      Leaves-map n c (quoted rest) (Leaves-more _ n _ (omega arith) (quoted-Leaves rest)) in
    let plain =
      Leaves-map n ch (quoted (c ∷ rest))
        (Leaves-more _ n _ (omega arith) (quoted-Leaves (c ∷ rest))) in
    elim (Bool-cases (ch == b'"')) [
      | inl e ↦ rw e (omega arith)
      | inr e ↦ elim (Bool-cases (ch == 92)) [ inl f ↦ rw (e, f) escaped | inr f ↦ rw (e, f) plain ]
    ]

unquoted-Leaves : (text : Text) → Leaves (length text) (unquoted text)
unfolding unquoted
unquoted-Leaves text = elim (Bool-cases (is_empty (trim_back (span no_comma text)))) [
  | inl e ↦ rw e tt
  | inr e ↦ rw e (length-skip no_comma text)
]

-- What comes behind the value.
closed-Leaves :
    (n : ℕ) (key : Text) (o : Option (Text × Text)) → Leaves n o → Leaves n (close_parameter key o)
unfolding close_parameter
closed-Leaves n key none l = tt
closed-Leaves n key (some (value, left)) l =
    let rest = skip is_blank left in
    elim (Bool-cases (is_empty rest || get_or rest 0 0 == b',')) [
      | inl e ↦ rw e (omega (arith, l, length-skip is_blank left))
      | inr e ↦ rw e tt
    ]

value_of-Leaves : (text : Text) → Leaves (length text) (value_of text)
unfolding value_of
value_of-Leaves text =
    let value = skip is_blank text in
    elim (Bool-cases (get_or value 0 0 == b'"')) [
      | inl e ↦ rw e (
          Leaves-more _ (length text) (quoted (drop 1 value))
            (omega (arith, length-drop 1 value, length-skip is_blank text))
            (quoted-Leaves (drop 1 value)))
      | inr e ↦ rw e (
          Leaves-more _ (length text) (unquoted value) (omega (arith, length-skip is_blank text))
            (unquoted-Leaves value))
    ]

in_key : ℕ → Bool
in_key ch = not (ch == b'=' || ch == b',' || is_blank ch)

-- A parameter takes at least its key.
one_parameter-Leaves : (text : Text) → Leaves (length text - 1) (one_parameter text)
unfolding one_parameter in_key
one_parameter-Leaves text =
    let behind = skip is_blank (skip in_key text) in
    elim (Bool-cases (is_empty (span in_key text))) [
      | inl e ↦ rw e tt
      | inr e ↦ elim (Bool-cases (get_or behind 0 0 == b'=')) [
        | inl f ↦
            let value = value_of (drop 1 behind) in
            let left = closed-Leaves _ (span in_key text) value (value_of-Leaves (drop 1 behind)) in
            rw (e, f)
              (Leaves-more _ (length text - 1) (close_parameter (span in_key text) value)
                (omega (
                  arith,
                  length-drop 1 behind,
                  length-skip is_blank (skip in_key text),
                  span-skip in_key text e,
                ))
                left)
        | inr f ↦ rw (e, f) tt
      ]
    ]

abbrev pub is_separator : ℕ → Bool
is_separator ch = is_blank ch || ch == b','

-- A run of the loop that comes to an end: each round drops separators, and then is the last, fails, meets a
-- key again, or goes on behind its parameter.
pub data Run : Text → Parameters → Option Parameters → Type 0 where
  ends :
      (text : Text) (parameters : Parameters)
      → is_empty (skip is_separator text) ≡ true
      → Run text parameters (some parameters)
  fails :
      (text : Text) (parameters : Parameters)
      → is_empty (skip is_separator text) ≡ false
      → one_parameter (skip is_separator text) ≡ none
      → Run text parameters none
  repeats :
      (text : Text) (parameters : Parameters) (key value rest : Text)
      → is_empty (skip is_separator text) ≡ false
      → one_parameter (skip is_separator text) ≡ some ((key, value), rest)
      → absent (parameter key parameters) ≡ false
      → Run text parameters none
  goes_on :
      (text : Text) (parameters : Parameters) (key value rest : Text) (result : Option Parameters)
      → is_empty (skip is_separator text) ≡ false
      → one_parameter (skip is_separator text) ≡ some ((key, value), rest)
      → absent (parameter key parameters) ≡ true
      → Run rest (parameters ++ (key, value) ∷ []) result
      → Run text parameters result

not_empty : (text : Text) → is_empty text ≡ false → 1 ≤ length text
not_empty [] h = absurd (cc)
not_empty (ch ∷ text) h = omega arith

parameters_from-Run :
    (fuel : ℕ) (text : Text) (parameters : Parameters)
    → length text < fuel
    → Run text parameters (parameters_from fuel text parameters)
unfolding parameters_from
parameters_from-Run zero text parameters h = absurd (omega (arith, h))
parameters_from-Run (suc fuel) text parameters h =
    let start = skip is_separator text in
    elim (Bool-cases (is_empty start)) [
      | inl e ↦ rw e (ends text parameters e)
      | inr e ↦ elim (Option-cases (one_parameter start)) [
        | inl f ↦ rw (e, f) (fails text parameters e f)
        | inr (((key, value), rest), f) ↦
            let fewer : length rest ≤ length start - 1 =
              subst (Leaves (length start - 1)) f (one_parameter-Leaves start) in
            elim (Bool-cases (absent (parameter key parameters))) [
              | inl g ↦
                  rw (e, f, g)
                    (goes_on text parameters key value rest _ e f g (
                      parameters_from-Run fuel rest (parameters ++ (key, value) ∷ []) (
                        omega (arith, fewer, h, not_empty start e, length-skip is_separator text))))
              | inr g ↦ rw (e, f, g) (repeats text parameters key value rest e f g)
            ]
      ]
    ]

-- On every text the loop of ParseDigestParameters comes to an end, with the result of the model.
pub parse_digest_parameters-Run : (text : Text) → Run text [] (parse_digest_parameters text)
unfolding parse_digest_parameters
parse_digest_parameters-Run text = parameters_from-Run (suc (length text)) text [] (omega arith)
