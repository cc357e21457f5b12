-- ===== src/Rtsp/Auth/Basic.antt =====
-- Basic logins: what DecodeBase64 makes of encoded text.
use video_pipeline.Base.{
  ℕ, ◌+◌, ◌*◌, ◌/◌, ◌%◌, ◌^◌, ◌<◌, ◌≡◌, ◌≢◌, refl, ap, ap₂, ◌∙◌, true, false, List, [], ◌∷◌, ◌++◌,
  Option, none, some, arith, ◌==◌, if◌then◌else◌, length, ==_iff, Bool-cases, inl, inr,
}
use video_pipeline.Base.Bits.{agree_below, agree_below→eq}
use video_pipeline.Media.Wire.{IsByte, All}
use video_pipeline.Media.Bitstream.{is_empty, base64_table, base64_char, base64_encode}
use video_pipeline.Media.Bitstream.Base64.{length-base64_encode}
use video_pipeline.Rtsp.Lexical.{◌>>=◌, find}
use video_pipeline.Rtsp.Auth.{digit_at, group_bytes, decode_groups, decode_base64}

abbrev or_none : Option ℕ → ℕ
or_none none = 64
or_none (some i) = i

found_at : (i : ℕ) → i < 64 → or_none (find (base64_char i) base64_table) ≡ i
unfolding agree_below base64_char
found_at = agree_below→eq (λ i. or_none (find (base64_char i) base64_table)) (λ i. i) 64 refl

or_none-some : (o : Option ℕ) (i : ℕ) → i < 64 → or_none o ≡ i → o ≡ some i
or_none-some none i h e = absurd (omega (arith, e))
or_none-some (some j) i h e = ap some e

abbrev is_padding : ℕ → ℕ
is_padding c = if c == b'=' then 1 else 0

no_padding : (i : ℕ) → i < 64 → is_padding (base64_char i) ≡ 0
unfolding agree_below base64_char
no_padding = agree_below→eq (λ i. is_padding (base64_char i)) (λ i. 0) 64 refl

plain_character : (i : ℕ) → i < 64 → (base64_char i == b'=') ≡ false
plain_character i h = elim (Bool-cases (base64_char i == b'=')) [
  | inl e ↦
      let one : is_padding (base64_char i) ≡ 1 = rw e refl in
      absurd (omega (arith, one, no_padding i h))
  | inr e ↦ e
]

-- A character of the alphabet, where no padding is before it.
digit_at-base64_char : (index i : ℕ) → i < 64 → digit_at index 0 (base64_char i) ≡ some (i, 0)
unfolding digit_at
digit_at-base64_char index i h =
    rw (plain_character i h, or_none-some (find (base64_char i) base64_table) i h (found_at i h))
      refl

-- A group without padding.
whole_group :
    (i j k l : ℕ) (rest : List ℕ)
    → i < 64
    → j < 64
    → k < 64
    → l < 64
    → decode_groups (base64_char i ∷ base64_char j ∷ base64_char k ∷ base64_char l ∷ rest) ≡ (
        decode_groups rest >>= λ decoded.
        some (group_bytes (i * 2 ^ 18 + j * 2 ^ 12 + k * 2 ^ 6 + l) 0 ++ decoded))
unfolding decode_groups
whole_group i j k l rest hi hj hk hl =
    rw
      (
        digit_at-base64_char 0 i hi,
        digit_at-base64_char 1 j hj,
        digit_at-base64_char 2 k hk,
        digit_at-base64_char 3 l hl,
      )
      refl

-- A group with one padding character, and one with two.
padded_group :
    (i j k : ℕ)
    → i < 64
    → j < 64
    → k < 64
    → decode_groups (base64_char i ∷ base64_char j ∷ base64_char k ∷ b'=' ∷ [])
      ≡ some (group_bytes (i * 2 ^ 18 + j * 2 ^ 12 + k * 2 ^ 6 + 0) 1 ++ [])
unfolding decode_groups
padded_group i j k hi hj hk =
    rw (digit_at-base64_char 0 i hi, digit_at-base64_char 1 j hj, digit_at-base64_char 2 k hk) refl

twice_padded_group :
    (i j : ℕ)
    → i < 64
    → j < 64
    → decode_groups (base64_char i ∷ base64_char j ∷ b'=' ∷ b'=' ∷ []) ≡ none
unfolding decode_groups
twice_padded_group i j hi hj =
    rw (digit_at-base64_char 0 i hi, digit_at-base64_char 1 j hj) (unfold digit_at in refl)

-- What is read back from encoded bytes, but for a single byte more than whole groups.
abbrev pub read_back : List ℕ → Option (List ℕ)
read_back xs = if length xs % 3 == 1 then none else some xs

decode_groups-encode :
    (xs : List ℕ) → All IsByte xs → decode_groups (base64_encode xs) ≡ read_back xs
unfolding base64_encode
decode_groups-encode [] h = unfold decode_groups in refl
decode_groups-encode (a ∷ []) (ha, _) =
    let value = a * 2 ^ 16 in
    twice_padded_group (value / 2 ^ 18 % 64) (value / 2 ^ 12 % 64) (omega arith) (omega arith)
decode_groups-encode (a ∷ b ∷ []) (ha, (hb, _)) =
    let value = a * 2 ^ 16 + b * 2 ^ 8 in
    padded_group (value / 2 ^ 18 % 64) (value / 2 ^ 12 % 64) (value / 2 ^ 6 % 64) (omega arith)
      (omega arith) (omega arith)
    ∙ ap₂ (λ x y. some (x ∷ y ∷ [])) (omega arith) (omega arith)
decode_groups-encode (a ∷ b ∷ c ∷ rest) (ha, (hb, (hc, h))) =
    let value = a * 2 ^ 16 + b * 2 ^ 8 + c in
    let i = value / 2 ^ 18 % 64 in
    let j = value / 2 ^ 12 % 64 in
    let k = value / 2 ^ 6 % 64 in
    let l = value % 64 in
    let bytes : group_bytes (i * 2 ^ 18 + j * 2 ^ 12 + k * 2 ^ 6 + l) 0 ≡ a ∷ b ∷ c ∷ [] =
      ap₂ ◌∷◌ (omega arith) (ap₂ (λ x y. x ∷ y ∷ []) (omega arith) (omega arith)) in
    let more : (length (a ∷ b ∷ c ∷ rest) % 3 == 1) ≡ (length rest % 3 == 1) =
      ap (λ n. n == 1) (omega arith) in
    whole_group i j k l (base64_encode rest) (omega arith) (omega arith) (omega arith) (omega arith)
    ∙ ap₂ (λ o (g : List ℕ). o >>= λ decoded. some (g ++ decoded)) (decode_groups-encode rest h)
        bytes
    ∙ elim (Bool-cases (length rest % 3 == 1)) [
      | inl e ↦ rw (more, e) refl
      | inr e ↦ rw (more, e) refl
    ]

filled : (t : List ℕ) → length t ≢ 0 → is_empty t ≡ false
filled [] h = absurd (h refl)
filled (c ∷ t) h = refl

-- DecodeBase64 gives the bytes that Base64Encode was given, if there are any and they are not one more than
-- a multiple of three; and then it gives nothing, since it takes no group with two padding characters.
pub decode_base64-encode :
    (xs : List ℕ) → All IsByte xs → xs ≢ [] → decode_base64 (base64_encode xs) ≡ read_back xs
unfolding decode_base64
decode_base64-encode [] h some_bytes = absurd (some_bytes refl)
decode_base64-encode (a ∷ rest) h some_bytes =
    let size = length-base64_encode (a ∷ rest) in
    let text = base64_encode (a ∷ rest) in
    let there = filled text (λ z. absurd (omega (arith, size, z))) in
    let groups : (length text % 4 == 0) ≡ true = (==_iff _ 0).1 (omega (arith, size)) in
    rw (there, groups) (decode_groups-encode (a ∷ rest) h)
