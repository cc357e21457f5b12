-- ===== src/Media/Bitstream/Base64.antt =====
-- Base64Encode of h264_bitstream.cpp against a decoder of RFC 4648.
use video_pipeline.Base.{
  ℕ, ◌+◌, ◌-◌, ◌*◌, ◌/◌, ◌%◌, ◌^◌, ◌<◌, ◌≡◌, ◌≢◌, refl, ap, ap₂, ◌∙◌, List, [], ◌∷◌, arith, leb,
  ◌==◌, ◌&&◌, if◌then◌else◌, length,
}
use video_pipeline.Base.Bits.{agree_below, agree_below→eq}
use video_pipeline.Media.Wire.{IsByte, All}
use video_pipeline.Media.Bitstream.{base64_char, base64_encode}

-- The value of a character of the alphabet, and 64 for any other.
char_value : ℕ → ℕ
char_value c =
    if leb b'A' c && leb c b'Z'
    then c - b'A'
    else if leb b'a' c && leb c b'z'
    then c - b'a' + 26
    else if leb b'0' c && leb c b'9'
    then c - b'0' + 52
    else if c == b'+'
    then 62
    else if c == b'/'
    then 63
    else 64

char_value-base64_char : (i : ℕ) → i < 64 → char_value (base64_char i) ≡ i
unfolding agree_below char_value base64_char
char_value-base64_char = agree_below→eq (λ i. char_value (base64_char i)) (λ i. i) 64 refl

base64_char-ne_pad : (i : ℕ) → i < 64 → base64_char i ≢ b'='
base64_char-ne_pad i h e = absurd (omega (arith, padded, char_value-base64_char i h))
  where
    padded : char_value (base64_char i) ≡ 64
    padded = rw e (unfold char_value in refl)

-- Four characters give three bytes, or fewer where the padding `=` stands.
pub base64_decode : List ℕ → List ℕ
base64_decode (w ∷ x ∷ y ∷ z ∷ rest) =
    let value = char_value w * 2 ^ 18 + char_value x * 2 ^ 12 in
    let value_y = value + char_value y * 2 ^ 6 in
    let more = base64_decode rest in
    if z == b'='
    then (if y == b'='
        then (value / 2 ^ 16) ∷ []
        else (value_y / 2 ^ 16) ∷ (value_y / 2 ^ 8 % 2 ^ 8) ∷ [])
    else (value_y / 2 ^ 16) ∷ (value_y / 2 ^ 8 % 2 ^ 8) ∷ ((value_y + char_value z) % 2 ^ 8) ∷ more
base64_decode other = []

-- Decoding the four groups of six bits of three bytes.
decode_three :
    (i j k l : ℕ) (rest : List ℕ)
    → i < 64
    → j < 64
    → k < 64
    → l < 64
    → base64_decode (base64_char i ∷ base64_char j ∷ base64_char k ∷ base64_char l ∷ rest)
      ≡ ((i * 2 ^ 18 + j * 2 ^ 12 + k * 2 ^ 6) / 2 ^ 16)
        ∷ ((i * 2 ^ 18 + j * 2 ^ 12 + k * 2 ^ 6) / 2 ^ 8 % 2 ^ 8)
        ∷ ((i * 2 ^ 18 + j * 2 ^ 12 + k * 2 ^ 6 + l) % 2 ^ 8)
        ∷ base64_decode rest
unfolding base64_decode
decode_three i j k l rest hi hj hk hl =
    rw
      (
        char_value-base64_char i hi,
        char_value-base64_char j hj,
        char_value-base64_char k hk,
        char_value-base64_char l hl,
      )
      (ground (arith, base64_char-ne_pad l hl))

decode_two :
    (i j k : ℕ)
    → i < 64
    → j < 64
    → k < 64
    → base64_decode (base64_char i ∷ base64_char j ∷ base64_char k ∷ b'=' ∷ [])
      ≡ ((i * 2 ^ 18 + j * 2 ^ 12 + k * 2 ^ 6) / 2 ^ 16)
        ∷ ((i * 2 ^ 18 + j * 2 ^ 12 + k * 2 ^ 6) / 2 ^ 8 % 2 ^ 8)
        ∷ []
unfolding base64_decode
decode_two i j k hi hj hk =
    rw (char_value-base64_char i hi, char_value-base64_char j hj, char_value-base64_char k hk)
      (ground (arith, base64_char-ne_pad k hk))

decode_one :
    (i j : ℕ)
    → i < 64
    → j < 64
    → base64_decode (base64_char i ∷ base64_char j ∷ b'=' ∷ b'=' ∷ [])
      ≡ ((i * 2 ^ 18 + j * 2 ^ 12) / 2 ^ 16) ∷ []
unfolding base64_decode
decode_one i j hi hj = rw (char_value-base64_char i hi, char_value-base64_char j hj) (ground arith)

-- What is encoded is decoded to the same bytes, whatever their number.
pub base64_decode-encode : (xs : List ℕ) → All IsByte xs → base64_decode (base64_encode xs) ≡ xs
unfolding base64_encode
base64_decode-encode [] h = unfold base64_decode in refl
base64_decode-encode (a ∷ []) (ha, _) =
    let value = a * 2 ^ 16 in
    decode_one (value / 2 ^ 18 % 64) (value / 2 ^ 12 % 64) (omega arith) (omega arith)
    ∙ ap (λ x. x ∷ []) (omega arith)
base64_decode-encode (a ∷ b ∷ []) (ha, (hb, _)) =
    let value = a * 2 ^ 16 + b * 2 ^ 8 in
    decode_two (value / 2 ^ 18 % 64) (value / 2 ^ 12 % 64) (value / 2 ^ 6 % 64) (omega arith)
      (omega arith) (omega arith)
    ∙ ap₂ (λ x y. x ∷ y ∷ []) (omega arith) (omega arith)
base64_decode-encode (a ∷ b ∷ c ∷ rest) (ha, (hb, (hc, h))) =
    let value = a * 2 ^ 16 + b * 2 ^ 8 + c in
    decode_three (value / 2 ^ 18 % 64) (value / 2 ^ 12 % 64) (value / 2 ^ 6 % 64) (value % 64)
      (base64_encode rest) (omega arith) (omega arith) (omega arith) (omega arith)
    ∙ ap₂ (λ x y. x ∷ y) (omega arith)
        (ap₂ (λ x y. x ∷ y) (omega arith)
          (ap₂ (λ x y. x ∷ y) (omega arith) (base64_decode-encode rest h)))

-- The text has four characters for every three bytes begun.
pub length-base64_encode : (xs : List ℕ) → length (base64_encode xs) ≡ (length xs + 2) / 3 * 4
unfolding base64_encode
length-base64_encode [] = omega arith
length-base64_encode (a ∷ []) = omega arith
length-base64_encode (a ∷ b ∷ []) = omega arith
length-base64_encode (a ∷ b ∷ c ∷ rest) = omega (arith, length-base64_encode rest)
