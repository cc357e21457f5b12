-- ===== src/Rtsp/RequestParser/Framing.antt =====
-- RtspRequestParser on a byte stream: what a buffer gives when more bytes come.
use video_pipeline.Base.{
  ℕ, suc, ◌+◌, ◌-◌, ◌≤◌, ◌<◌, ◌≡◌, inl, inr, refl, sym, subst, true, false, List, [], ◌∷◌, ◌++◌,
  append-nil, arith, ltb, ◌==◌, ==_iff, if◌then◌else◌, length, length-append, lt→ltb, ltb→lt, take,
  drop, Bool-cases,
}
use video_pipeline.Rtsp.Lexical.{
  LineStatus, complete, need_more_data, error, find_line_end, partial_line_length,
}
use video_pipeline.Rtsp.Lexical.Lines.{find_line_end-grows, partial-append}
use video_pipeline.Rtsp.RequestParser.{
  RtspHeader, Limits, HeaderScan, headers_complete, stopped, need_more, failed, Checked, accepted,
  rejected, header_line, parse_headers,
}

-- What one line of the header section leads to.
unfoldable pub on_line :
    Limits
    → ℕ
    → ℕ
    → List ℕ
    → List RtspHeader
    → (List RtspHeader → HeaderScan)
    → LineStatus
    → HeaderScan
on_line limits header_begin position rest headers next (error offset) =
    stopped (failed (position + offset))
on_line limits header_begin position rest headers next need_more_data =
    if ltb limits.max_header_line_bytes (partial_line_length rest)
    then stopped (failed position)
    else if ltb limits.max_header_bytes (position + length rest - header_begin)
    then stopped (failed header_begin)
    else stopped need_more
on_line limits header_begin position rest headers next (complete size) =
    if ltb limits.max_header_line_bytes size
    then stopped (failed position)
    else if size == 0
    then headers_complete headers (position + 2) (drop 2 rest)
    else elim (header_line headers (take size rest)) [
      | rejected offset ↦ stopped (failed (position + offset))
      | accepted headers' ↦ next headers'
    ]

-- The rounds behind a line of the size.
abbrev pub after_line : ℕ → Limits → ℕ → ℕ → List ℕ → LineStatus → List RtspHeader → HeaderScan
after_line fuel limits header_begin position rest (complete size) headers =
    parse_headers fuel limits header_begin (position + size + 2) (drop (size + 2) rest) headers
after_line fuel limits header_begin position rest _ headers = stopped need_more

module _ (fuel : ℕ) (limits : Limits) (header_begin position b : ℕ) (bs : List ℕ)
    (headers : List RtspHeader) where
  pub parse_headers-full :
      ltb limits.max_header_bytes (position - header_begin) ≡ true
      → parse_headers (suc fuel) limits header_begin position (b ∷ bs) headers
        ≡ stopped (failed position)
  unfolding parse_headers
  parse_headers-full e = rw e refl

  pub parse_headers-line :
      ltb limits.max_header_bytes (position - header_begin) ≡ false
      → (s : LineStatus) → find_line_end (b ∷ bs) ≡ s
      → parse_headers (suc fuel) limits header_begin position (b ∷ bs) headers
        ≡ on_line limits header_begin position
            (b ∷ bs)
            headers
            (after_line fuel limits header_begin position (b ∷ bs) s)
            s
  unfolding parse_headers on_line
  parse_headers-line e (error k) l = rw (e, l) refl
  parse_headers-line e need_more_data l = rw (e, l) refl
  parse_headers-line e (complete k) l = rw (e, l) refl

-- The scan will not give a request: it has failed, or the section is too large.
abbrev pub Fails : Limits → ℕ → HeaderScan → Type 0
Fails limits header_begin (stopped (failed offset)) = Unit
Fails limits header_begin (stopped _) = ⊥
Fails limits header_begin (headers_complete headers position rest) =
    limits.max_header_bytes < position - header_begin

-- What the scan of a longer input gives.
abbrev pub Extends : Limits → ℕ → List ℕ → HeaderScan → HeaderScan → Type 0
Extends limits header_begin more (headers_complete headers position rest) s =
    s ≡ headers_complete headers position (rest ++ more)
Extends limits header_begin more (stopped (failed offset)) s = Fails limits header_begin s
Extends limits header_begin more (stopped _) s = Unit

pub full-Fails :
    (fuel : ℕ) (limits : Limits) (header_begin position : ℕ) (rest : List ℕ)
    (headers : List RtspHeader)
    → limits.max_header_bytes < position - header_begin
    → Fails limits header_begin (parse_headers (suc fuel) limits header_begin position rest headers)
full-Fails fuel limits header_begin position [] headers h =
    unfold parse_headers in rw (lt→ltb _ _ h) tt
full-Fails fuel limits header_begin position (b ∷ bs) headers h =
    subst (Fails limits header_begin)
      (sym (parse_headers-full fuel limits header_begin position b bs headers (lt→ltb _ _ h))) tt

pub partial_mono :
    (rest more : List ℕ) → partial_line_length rest ≤ partial_line_length (rest ++ more)
partial_mono rest [] = rw (append-nil rest) (omega arith)
partial_mono rest (b ∷ more) = partial-append rest b more

-- A line of which part is there already, when more of it comes.
module _ (limits : Limits) (header_begin position : ℕ) (rest more : List ℕ)
    (headers : List RtspHeader) (next next' : List RtspHeader → HeaderScan)
    (open' : find_line_end rest ≡ need_more_data) where
  long-Fails :
      (t : LineStatus)
      → find_line_end (rest ++ more) ≡ t
      → limits.max_header_line_bytes < partial_line_length rest
      → Fails limits header_begin
          (on_line limits header_begin position (rest ++ more) headers next' t)
  unfolding on_line
  long-Fails (error k) g long = tt
  long-Fails need_more_data g long =
      rw
        (lt→ltb limits.max_header_line_bytes (partial_line_length (rest ++ more))
          (omega (arith, partial_mono rest more)))
        tt
  long-Fails (complete k) g long =
      rw
        (lt→ltb limits.max_header_line_bytes k
          (omega (arith, (find_line_end-grows rest more k open' g).0)))
        tt

  line-Fails :
      (checked : Checked)
      → ((headers' : List RtspHeader) → Fails limits header_begin (next' headers'))
      → Fails limits header_begin (elim checked [
        | rejected offset ↦ stopped (failed (position + offset))
        | accepted headers' ↦ next' headers'
      ])
  line-Fails (rejected offset) h = tt
  line-Fails (accepted headers') h = h headers'

  abbrev pub LateFails : LineStatus → Type 0
  LateFails t =
      (headers' : List RtspHeader) (k : ℕ)
      → t ≡ complete k
      → limits.max_header_bytes < position + k + 2 - header_begin
      → Fails limits header_begin (next' headers')

  large-Fails :
      (t : LineStatus)
      → find_line_end (rest ++ more) ≡ t
      → LateFails t
      → limits.max_header_bytes < position + length rest - header_begin
      → Fails limits header_begin
          (on_line limits header_begin position (rest ++ more) headers next' t)
  unfolding on_line
  large-Fails (error k) g later large = tt
  large-Fails need_more_data g later large =
      elim (Bool-cases (ltb limits.max_header_line_bytes (partial_line_length (rest ++ more)))) [
        | inl e ↦ rw e tt
        | inr e ↦
            rw
              (
                e,
                lt→ltb limits.max_header_bytes (position + length (rest ++ more) - header_begin)
                    (omega (arith, length-append rest more)),
              )
              tt
      ]
  large-Fails (complete k) g later large =
      let (_, grown) = find_line_end-grows rest more k open' g in
      elim (Bool-cases (ltb limits.max_header_line_bytes k)) [
        | inl e ↦ rw e tt
        | inr e ↦ elim (Bool-cases (k == 0)) [
          | inl z ↦ rw (e, z) (omega (arith, (==_iff k 0).0 z, grown))
          | inr some_line ↦
              rw (e, some_line)
                (line-Fails (header_line headers (take k (rest ++ more)))
                  λ headers'. later headers' k refl (omega (arith, grown)))
        ]
      ]

  on_line-long :
      ltb limits.max_header_line_bytes (partial_line_length rest) ≡ true
      → on_line limits header_begin position rest headers next need_more_data
        ≡ stopped (failed position)
  unfolding on_line
  on_line-long e = rw e refl

  on_line-large :
      ltb limits.max_header_line_bytes (partial_line_length rest) ≡ false
      → ltb limits.max_header_bytes (position + length rest - header_begin) ≡ true
      → on_line limits header_begin position rest headers next need_more_data
        ≡ stopped (failed header_begin)
  unfolding on_line
  on_line-large e k = rw (e, k) refl

  on_line-small :
      ltb limits.max_header_line_bytes (partial_line_length rest) ≡ false
      → ltb limits.max_header_bytes (position + length rest - header_begin) ≡ false
      → on_line limits header_begin position rest headers next need_more_data ≡ stopped need_more
  unfolding on_line
  on_line-small e k = rw (e, k) refl

  pub open-Extends :
      (t : LineStatus)
      → find_line_end (rest ++ more) ≡ t
      → LateFails t
      → Extends limits header_begin more
          (on_line limits header_begin position rest headers next need_more_data)
          (on_line limits header_begin position (rest ++ more) headers next' t)
  open-Extends t g later =
      elim (Bool-cases (ltb limits.max_header_line_bytes (partial_line_length rest))) [
        | inl long ↦ rw (on_line-long long) (long-Fails t g (ltb→lt _ _ long))
        | inr short ↦
            elim (Bool-cases
              (ltb limits.max_header_bytes (position + length rest - header_begin))) [
                | inl large ↦
                    rw (on_line-large short large) (large-Fails t g later (ltb→lt _ _ large))
                | inr small ↦ rw (on_line-small short small) tt
              ]
      ]
