-- ===== src/Rtsp/Lexical.antt =====
-- The words of a request in src/media/protocol/rtsp/rtsp_request_parser.cpp: characters, URIs, numbers,
-- and lines. Text is its bytes; a search gives the index, or `none` for npos.
pub mod Numbers
pub mod Lines
mod Examples
use Prim.Native.Char.{Char, code}
use Prim.Native.String.{String}
use video_pipeline.Base.{
  ℕ, zero, suc, ◌+◌, ◌-◌, ◌*◌, ◌/◌, ◌%◌, ◌^◌, Bool, true, false, not, ◌&&◌, ◌||◌, List, [], ◌∷◌,
  Option, none, some, ltb, leb, ◌==◌, if◌then◌else◌, length, take, drop, get_or,
}
use video_pipeline.Media.Bitstream.{is_empty}

-- A chain of steps that may fail, and a test that must hold.
infixl 5 ◌>>=◌ ◌>>◌
abbrev pub ◌>>=◌ {ℓ κ} : {A : Type ℓ} {B : Type κ} → Option A → (A → Option B) → Option B
none >>= f = none
some a >>= f = f a

abbrev pub ◌>>◌ {ℓ} : {B : Type ℓ} → Option (Unit {0}) → Option B → Option B
m >> k = m >>= λ _. k

abbrev pub require : Bool → Option (Unit {0})
require true = some tt
require false = none

abbrev pub codes : String → List ℕ
codes String.[] = []
codes (String.◌∷◌ c rest) = code c ∷ codes rest

abbrev pub among : ℕ → List ℕ → Bool
among c [] = false
among c (x ∷ xs) = c == x || among c xs

-- std::all_of.
abbrev pub all_of : (ℕ → Bool) → List ℕ → Bool
all_of test [] = true
all_of test (c ∷ cs) = test c && all_of test cs

abbrev between : ℕ → ℕ → ℕ → Bool
between low high c = leb low c && leb c high

unfoldable pub lower : ℕ → ℕ
lower ch = if between 65 90 ch then ch + 32 else ch

unfoldable pub ascii_equals_ignore_case : List ℕ → List ℕ → Bool
unfolding lower
ascii_equals_ignore_case [] [] = true
ascii_equals_ignore_case (a ∷ as') (b ∷ bs) = lower a == lower b && ascii_equals_ignore_case as' bs
ascii_equals_ignore_case _ _ = false

abbrev separators : List ℕ
separators = codes "()<>@,;:\\\"/[]?={} \t"

unfoldable pub is_token_character : ℕ → Bool
is_token_character ch = if leb ch 31 || leb 127 ch then false else not (among ch separators)

abbrev is_letter : ℕ → Bool
is_letter ch = between 65 90 ch || between 97 122 ch

abbrev pub is_digit : ℕ → Bool
is_digit ch = between 48 57 ch

unfoldable pub is_scheme_character : ℕ → Bool
is_scheme_character ch = is_letter ch || is_digit ch || among ch (codes "+-.")

unfoldable pub is_hex_digit : ℕ → Bool
is_hex_digit ch = is_digit ch || between 65 70 ch || between 97 102 ch

unfoldable pub is_uri_character : ℕ → Bool
is_uri_character ch = is_letter ch || is_digit ch || among ch (codes "$-_.~+!*'(),;/?:@&=[]")

-- std::string_view::find.
abbrev pub find : ℕ → List ℕ → Option ℕ
find c [] = none
find c (x ∷ xs) =
    let later = find c xs in
    if x == c then some 0 else elim later [ none ↦ none | some i ↦ some (suc i) ]

-- The text behind the scheme; the number is of hexadecimal digits that a percent sign still wants.
uri_rest : ℕ → List ℕ → Bool
unfolding is_hex_digit is_uri_character
uri_rest zero [] = true
uri_rest (suc n) [] = false
uri_rest zero (c ∷ rest) =
    let next = uri_rest (if c == 37 then 2 else 0) rest in (c == 37 || is_uri_character c) && next
uri_rest (suc n) (c ∷ rest) = is_hex_digit c && uri_rest n rest

abbrev is_star : List ℕ → Bool
is_star [] = false
is_star (c ∷ rest) = c == 42 && is_empty rest

unfoldable pub is_absolute_uri : List ℕ → Bool
unfolding uri_rest is_scheme_character
is_absolute_uri uri =
    if is_empty uri then false else if is_star uri then true else elim (find 58 uri) [
      | none ↦ false
      | some colon ↦
          not (colon == 0)
          && is_letter (get_or uri 0 0)
          && all_of is_scheme_character (drop 1 (take colon uri))
          && uri_rest 0 (drop (colon + 1) uri)
    ]

abbrev pub is_blank : ℕ → Bool
is_blank c = c == 32 || c == 9

trim_front : List ℕ → List ℕ
trim_front [] = []
trim_front (c ∷ rest) = if is_blank c then trim_front rest else c ∷ rest

unfoldable pub trim_back : List ℕ → List ℕ
trim_back [] = []
trim_back (c ∷ rest) =
    let kept = trim_back rest in if is_blank c && is_empty kept then [] else c ∷ kept

unfoldable pub trim_linear_whitespace : List ℕ → List ℕ
unfolding trim_front trim_back
trim_linear_whitespace value = trim_back (trim_front value)

abbrev pub is_field_character : ℕ → Bool
is_field_character ch = ch == 9 || leb 32 ch && not (ch == 127)

abbrev pub is_valid_field_value : List ℕ → Bool
is_valid_field_value value = all_of is_field_character value

-- The loop of ParseUnsigned; `result` is a size_t.
parse_digits : ℕ → List ℕ → ℕ → Option ℕ
parse_digits maximum [] result = some result
parse_digits maximum (ch ∷ rest) result =
    let digit = ch - 48 in
    let next = parse_digits maximum rest ((result * 10 + digit) % 2 ^ 64) in
    if ltb ch 48 || ltb 57 ch
    then none
    else if ltb maximum digit || ltb ((maximum - digit) / 10) result
    then none
    else next

unfoldable pub parse_unsigned : List ℕ → ℕ → Option ℕ
unfolding parse_digits
parse_unsigned value maximum = if is_empty value then none else parse_digits maximum value 0

-- The end of the line that begins here, or what is wrong with it, at offsets from its beginning.
pub data LineStatus : Type 0 where
  complete : ℕ → LineStatus
  need_more_data : LineStatus
  error : ℕ → LineStatus

-- The loop at offset `i`, with whether the byte before it in the line is CR.
find_line_end_from : Bool → ℕ → List ℕ → LineStatus
find_line_end_from after_cr i [] = need_more_data
find_line_end_from after_cr i (b ∷ rest) =
    let more = find_line_end_from (b == 13) (suc i) rest in
    if b == 10
    then (if not after_cr then error i else complete (i - 1))
    else if b == 13
    then (if is_empty rest
        then need_more_data
        else if not (get_or rest 0 0 == 10)
        then error i
        else more)
    else more

unfoldable pub find_line_end : List ℕ → LineStatus
unfolding find_line_end_from
find_line_end input = find_line_end_from false 0 input

-- `input.back() == '\r'`, with the byte before.
ends_in_cr : Bool → List ℕ → Bool
ends_in_cr after_cr [] = after_cr
ends_in_cr after_cr (b ∷ rest) = ends_in_cr (b == 13) rest

unfoldable pub partial_line_length : List ℕ → ℕ
unfolding ends_in_cr
partial_line_length input = if ends_in_cr false input then length input - 1 else length input
