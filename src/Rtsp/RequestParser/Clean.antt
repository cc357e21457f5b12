-- ===== src/Rtsp/RequestParser/Clean.antt =====
-- RtspRequestParser: what stands in a request that it accepts.
use video_pipeline.Base.{
  ℕ, zero, suc, ◌+◌, ◌-◌, ◌≡◌, refl, inl, inr, Bool, true, false, not, ◌||◌, List, [], ◌∷◌, ◌++◌,
  Option, none, some, arith, ltb, ◌==◌, length, take, drop, get_or, Bool-cases,
}
use video_pipeline.Media.Wire.{All}
use video_pipeline.Media.Bitstream.{is_empty}
use video_pipeline.Rtsp.Lexical.{
  all_of, is_token_character, find, is_field_character, is_valid_field_value,
  trim_linear_whitespace, LineStatus, complete, need_more_data, error, find_line_end,
  partial_line_length,
}
use video_pipeline.Rtsp.RequestParser.{
  RtspHeader, Limits, HeaderScan, headers_complete, stopped, parsed, failed, Checked, accepted,
  rejected, append_to_last, continue_header, new_header, header_line, parse_headers,
}
use video_pipeline.Rtsp.RequestParser.Framing.{
  on_line, after_line, parse_headers-full, parse_headers-line,
}

abbrev pub IsToken : List ℕ → Type 0
IsToken name = (is_empty name ≡ false) × (all_of is_token_character name ≡ true)

-- No line end and no other control character stands in a header.
abbrev pub IsClean : RtspHeader → Type 0
IsClean h = IsToken h.name × (is_valid_field_value h.value ≡ true)

abbrev CleanChecked : Checked → Type 0
CleanChecked (accepted headers) = All IsClean headers
CleanChecked (rejected offset) = Unit

abbrev pub CleanScan : HeaderScan → Type 0
CleanScan (headers_complete headers position rest) = All IsClean headers
CleanScan (stopped (parsed n request)) = ⊥
CleanScan (stopped _) = Unit

all_of-append :
    (test : ℕ → Bool) (xs ys : List ℕ)
    → all_of test xs ≡ true
    → all_of test ys ≡ true
    → all_of test (xs ++ ys) ≡ true
all_of-append test [] ys h k = k
all_of-append test (x ∷ xs) ys h k =
    ground (arith, h, all_of-append test xs ys (ground (arith, h)) k)

All-snoc :
    (hs : List RtspHeader) (h : RtspHeader)
    → All IsClean hs
    → IsClean h
    → All IsClean (hs ++ h ∷ [])
All-snoc [] h a c = (c, tt)
All-snoc (x ∷ hs) h (b, a) c = (b, All-snoc hs h a c)

append_to_last-Clean :
    (hs : List RtspHeader) (more : List ℕ)
    → All IsClean hs
    → is_valid_field_value more ≡ true
    → All IsClean (append_to_last hs more)
unfolding append_to_last
append_to_last-Clean [] more a v = tt
append_to_last-Clean (h ∷ []) more ((name, value), _) v = elim (Bool-cases (is_empty h.value)) [
  | inl e ↦ rw e ((name, v), tt)
  | inr e ↦ rw e ((name, all_of-append is_field_character h.value (32 ∷ more) value v), tt)
]
append_to_last-Clean (h ∷ h' ∷ hs) more (c, a) v = (c, append_to_last-Clean (h' ∷ hs) more a v)

continue_header-Clean :
    (hs : List RtspHeader) (line : List ℕ) → All IsClean hs → CleanChecked (continue_header hs line)
unfolding continue_header
continue_header-Clean hs line a =
    let more = trim_linear_whitespace line in
    elim (Bool-cases (is_empty hs || not (is_valid_field_value more))) [
      | inl e ↦ rw e tt
      | inr e ↦ elim (Bool-cases (is_empty more)) [
        | inl z ↦ rw (e, z) a
        | inr z ↦ rw (e, z) (append_to_last-Clean hs more a (ground (arith, e)))
      ]
    ]

pub taken-some :
    (c : ℕ) (line : List ℕ) (i : ℕ)
    → find c line ≡ some i
    → (i == 0) ≡ false
    → is_empty (take i line) ≡ false
taken-some c [] i e k = absurd (ground (arith, e))
taken-some c (x ∷ line) zero e k = absurd (ground (arith, k))
taken-some c (x ∷ line) (suc i) e k = refl

new_header-Clean :
    (hs : List RtspHeader) (line : List ℕ) (o : Option ℕ)
    → find 58 line ≡ o
    → All IsClean hs
    → CleanChecked (new_header hs line o)
unfolding new_header
new_header-Clean hs line none f a = tt
new_header-Clean hs line (some colon) f a =
    let value = trim_linear_whitespace (drop (colon + 1) line) in
    elim (Bool-cases (colon == 0 || not (all_of is_token_character (take colon line)))) [
      | inl z ↦ rw z tt
      | inr z ↦ elim (Bool-cases (not (is_valid_field_value value))) [
        | inl v ↦ rw (z, v) tt
        | inr v ↦
            rw (z, v)
              (All-snoc hs _ a (
                (taken-some 58 line colon f (ground (arith, z)), ground (arith, z)),
                ground (arith, v),
              ))
      ]
    ]

header_line-Clean :
    (hs : List RtspHeader) (line : List ℕ) → All IsClean hs → CleanChecked (header_line hs line)
unfolding header_line
header_line-Clean hs line a = elim (Bool-cases (get_or line 0 0 == 32 || get_or line 0 0 == 9)) [
  | inl e ↦ rw e (continue_header-Clean hs line a)
  | inr e ↦ rw e (new_header-Clean hs line (find 58 line) refl a)
]

checked-Clean :
    (position : ℕ) (next : List RtspHeader → HeaderScan) (checked : Checked)
    → CleanChecked checked
    → ((hs : List RtspHeader) → All IsClean hs → CleanScan (next hs))
    → CleanScan (elim checked [
      | rejected offset ↦ stopped (failed (position + offset))
      | accepted headers' ↦ next headers'
    ])
checked-Clean position next (rejected offset) c h = tt
checked-Clean position next (accepted hs) c h = h hs c

on_line-Clean :
    (limits : Limits) (header_begin position : ℕ) (rest : List ℕ) (hs : List RtspHeader)
    (next : List RtspHeader → HeaderScan) (s : LineStatus)
    → All IsClean hs
    → ((hs' : List RtspHeader) → All IsClean hs' → CleanScan (next hs'))
    → CleanScan (on_line limits header_begin position rest hs next s)
unfolding on_line
on_line-Clean limits header_begin position rest hs next (error k) a h = tt
on_line-Clean limits header_begin position rest hs next need_more_data a h =
    elim (Bool-cases (ltb limits.max_header_line_bytes (partial_line_length rest))) [
      | inl e ↦ rw e tt
      | inr e ↦
          elim (Bool-cases (ltb limits.max_header_bytes (position + length rest - header_begin))) [
            | inl k ↦ rw (e, k) tt
            | inr k ↦ rw (e, k) tt
          ]
    ]
on_line-Clean limits header_begin position rest hs next (complete k) a h =
    elim (Bool-cases (ltb limits.max_header_line_bytes k)) [
      | inl e ↦ rw e tt
      | inr e ↦ elim (Bool-cases (k == 0)) [
        | inl z ↦ rw (e, z) a
        | inr z ↦
            rw (e, z)
              (checked-Clean position next (header_line hs (take k rest))
                (header_line-Clean hs (take k rest) a) h)
      ]
    ]

after_line-Clean :
    (fuel : ℕ) (limits : Limits) (header_begin position : ℕ) (rest : List ℕ) (s : LineStatus)
    (hs : List RtspHeader)
    → ((position' : ℕ) (rest' : List ℕ)
        → CleanScan (parse_headers fuel limits header_begin position' rest' hs))
    → CleanScan (after_line fuel limits header_begin position rest s hs)
after_line-Clean fuel limits header_begin position rest (error k) hs h = tt
after_line-Clean fuel limits header_begin position rest need_more_data hs h = tt
after_line-Clean fuel limits header_begin position rest (complete k) hs h = h _ _

pub parse_headers-Clean :
    (fuel : ℕ) (limits : Limits) (header_begin position : ℕ) (rest : List ℕ) (hs : List RtspHeader)
    → All IsClean hs
    → CleanScan (parse_headers fuel limits header_begin position rest hs)
parse_headers-Clean zero limits header_begin position rest hs a = unfold parse_headers in tt
parse_headers-Clean (suc fuel) limits header_begin position [] hs a =
    elim (Bool-cases (ltb limits.max_header_bytes (position - header_begin))) [
      | inl e ↦ unfold parse_headers in rw e tt
      | inr e ↦ unfold parse_headers in rw e tt
    ]
parse_headers-Clean (suc fuel) limits header_begin position (b ∷ bs) hs a =
    elim (Bool-cases (ltb limits.max_header_bytes (position - header_begin))) [
      | inl e ↦ rw (parse_headers-full fuel limits header_begin position b bs hs e) tt
      | inr e ↦
          rw
            (parse_headers-line fuel limits header_begin position b bs hs e (find_line_end (b ∷ bs))
              refl)
            (on_line-Clean limits header_begin position (b ∷ bs) hs _ (find_line_end (b ∷ bs)) a
              λ hs' a'.
                after_line-Clean fuel limits header_begin position (b ∷ bs) (find_line_end (b ∷ bs))
                  hs'
                  λ position' rest'.
                    parse_headers-Clean fuel limits header_begin position' rest' hs' a')
    ]
