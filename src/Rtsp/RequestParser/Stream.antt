-- ===== src/Rtsp/RequestParser/Stream.antt =====
-- RtspRequestParser on a byte stream: however a request is cut, it is found when its last byte is there.
use video_pipeline.Base.{
  ℕ, zero, suc, ◌+◌, ◌-◌, ◌≤◌, ◌<◌, ◌≡◌, inl, inr, refl, ap, sym, subst, ◌∙◌, true, List, [], ◌∷◌,
  ◌++◌, arith, ltb, ◌==◌, length, length-append, length-drop, ltb→lt, take-append_le,
  drop-append_le, take, drop, Bool-cases,
}
use video_pipeline.Rtsp.Lexical.{LineStatus, complete, need_more_data, error, find_line_end}
use video_pipeline.Rtsp.Lexical.Lines.{find_line_end-append, find_line_end-bounds}
use video_pipeline.Rtsp.RequestParser.{
  RtspHeader, Limits, HeaderScan, headers_complete, stopped, failed, Checked, accepted, rejected,
  header_line, parse_headers,
}
use video_pipeline.Rtsp.RequestParser.Framing.{
  on_line, after_line, parse_headers-full, parse_headers-line, Fails, Extends, full-Fails,
  open-Extends,
}

-- What is found in the input is found in the longer one.
pub found :
    (rest more : List ℕ) (t s : LineStatus)
    → (s ≡ need_more_data → ⊥)
    → find_line_end rest ≡ s
    → find_line_end (rest ++ more) ≡ t
    → t ≡ s
found rest more t s closed f g = elim (find_line_end-append rest more) [
  | inl e ↦ absurd (closed (sym f ∙ e))
  | inr e ↦ sym g ∙ e ∙ f
]

checked-Extends :
    (limits : Limits) (header_begin position : ℕ) (more : List ℕ)
    (next next' : List RtspHeader → HeaderScan)
    → ((headers' : List RtspHeader)
        → Extends limits header_begin more (next headers') (next' headers'))
    → (checked : Checked)
    → Extends limits header_begin more
        (elim checked [
          | rejected offset ↦ stopped (failed (position + offset))
          | accepted headers' ↦ next headers'
        ])
        (elim checked [
          | rejected offset ↦ stopped (failed (position + offset))
          | accepted headers' ↦ next' headers'
        ])
checked-Extends limits header_begin position more next next' h (rejected offset) = tt
checked-Extends limits header_begin position more next next' h (accepted headers') = h headers'

error-Extends :
    (limits : Limits) (header_begin position k : ℕ) (rest more : List ℕ) (headers : List RtspHeader)
    (next next' : List RtspHeader → HeaderScan)
    → Extends limits header_begin more
        (on_line limits header_begin position rest headers next (error k))
        (on_line limits header_begin position (rest ++ more) headers next' (error k))
unfolding on_line
error-Extends limits header_begin position k rest more headers next next' = tt

-- A whole line leads to the same in a longer input.
line-Extends :
    (limits : Limits) (header_begin position k : ℕ) (rest more : List ℕ) (headers : List RtspHeader)
    (next next' : List RtspHeader → HeaderScan)
    → k + 2 ≤ length rest
    → ((headers' : List RtspHeader)
        → Extends limits header_begin more (next headers') (next' headers'))
    → Extends limits header_begin more
        (on_line limits header_begin position rest headers next (complete k))
        (on_line limits header_begin position (rest ++ more) headers next' (complete k))
unfolding on_line
line-Extends limits header_begin position k rest more headers next next' fits h =
    elim (Bool-cases (ltb limits.max_header_line_bytes k)) [
      | inl e ↦ rw e tt
      | inr e ↦ elim (Bool-cases (k == 0)) [
        | inl z ↦
            rw (e, z)
              (ap (headers_complete headers (position + 2))
                (drop-append_le 2 rest more (omega (arith, fits))))
        | inr some_line ↦
            rw (e, some_line, take-append_le k rest more (omega (arith, fits)))
              (checked-Extends limits header_begin position more next next' h
                (header_line headers (take k rest)))
      ]
    ]

parse_headers-nil :
    (fuel : ℕ) (limits : Limits) (header_begin position : ℕ) (headers : List RtspHeader)
    → ltb limits.max_header_bytes (position - header_begin) ≡ true
    → parse_headers (suc fuel) limits header_begin position [] headers
      ≡ stopped (failed header_begin)
unfolding parse_headers
parse_headers-nil fuel limits header_begin position headers e = rw e refl

full-Fails-some :
    (fuel : ℕ) (limits : Limits) (header_begin position : ℕ) (rest : List ℕ)
    (headers : List RtspHeader)
    → 1 ≤ fuel
    → limits.max_header_bytes < position - header_begin
    → Fails limits header_begin (parse_headers fuel limits header_begin position rest headers)
full-Fails-some zero limits header_begin position rest headers some_fuel h = absurd (omega arith)
full-Fails-some (suc fuel) limits header_begin position rest headers some_fuel h =
    full-Fails fuel limits header_begin position rest headers h

-- Behind a line that ends beyond the limit.
late-Fails :
    (fuel : ℕ) (limits : Limits) (header_begin position : ℕ) (rest : List ℕ) (t : LineStatus)
    → length rest ≤ fuel
    → find_line_end rest ≡ t
    → (headers : List RtspHeader) (k : ℕ) → t ≡ complete k
    → limits.max_header_bytes < position + k + 2 - header_begin
    → Fails limits header_begin (after_line fuel limits header_begin position rest t headers)
late-Fails fuel limits header_begin position rest t enough g headers k e h =
    subst
      (λ t'.
        Fails limits header_begin (after_line fuel limits header_begin position rest t' headers))
      (sym e)
      (full-Fails-some fuel limits header_begin (position + k + 2) (drop (k + 2) rest) headers
        (omega (arith, enough, find_line_end-bounds rest k (g ∙ e))) h)

module _ (fuel fuel' : ℕ) (limits : Limits) (header_begin position : ℕ) (rest more : List ℕ)
    (headers : List RtspHeader) where
  -- One round on a line, if what follows it extends.
  round-Extends :
      (s t : LineStatus)
      → find_line_end rest ≡ s
      → find_line_end (rest ++ more) ≡ t
      → length (rest ++ more) ≤ fuel'
      → ((k : ℕ) (headers' : List RtspHeader)
          → k + 2 ≤ length rest
          → Extends limits header_begin more
              (parse_headers fuel limits header_begin
                (position + k + 2)
                (drop (k + 2) rest)
                headers')
              (parse_headers fuel' limits header_begin
                (position + k + 2)
                (drop (k + 2) (rest ++ more))
                headers'))
      → Extends limits header_begin more
          (on_line limits header_begin position rest headers
            (after_line fuel limits header_begin position rest s)
            s)
          (on_line limits header_begin position
            (rest ++ more)
            headers
            (after_line fuel' limits header_begin position (rest ++ more) t)
            t)
  round-Extends need_more_data t f g enough ih =
      open-Extends limits header_begin position rest more headers _ _ f t g
        (late-Fails fuel' limits header_begin position (rest ++ more) t enough g)
  round-Extends (error k) t f g enough ih =
      subst
        (λ t'.
          Extends limits header_begin more
            (on_line limits header_begin position rest headers
              (after_line fuel limits header_begin position rest (error k)) (error k))
            (on_line limits header_begin position (rest ++ more) headers
              (after_line fuel' limits header_begin position (rest ++ more) t') t'))
        (sym (found rest more t (error k) (λ e. ground (arith, e)) f g))
        (error-Extends limits header_begin position k rest more headers _ _)
  round-Extends (complete k) t f g enough ih =
      let fits = find_line_end-bounds rest k f in
      subst
        (λ t'.
          Extends limits header_begin more
            (on_line limits header_begin position rest headers
              (after_line fuel limits header_begin position rest (complete k)) (complete k))
            (on_line limits header_begin position (rest ++ more) headers
              (after_line fuel' limits header_begin position (rest ++ more) t') t'))
        (sym (found rest more t (complete k) (λ e. ground (arith, e)) f g))
        (line-Extends limits header_begin position k rest more headers _ _ fits
          (λ headers'. ih k headers' fits))

pub parse_headers-Extends :
    (fuel fuel' : ℕ) (limits : Limits) (header_begin position : ℕ) (rest more : List ℕ)
    (headers : List RtspHeader)
    → length (rest ++ more) < fuel'
    → Extends limits header_begin more
        (parse_headers fuel limits header_begin position rest headers)
        (parse_headers fuel' limits header_begin position (rest ++ more) headers)
parse_headers-Extends zero fuel' limits header_begin position rest more headers h =
    unfold parse_headers in tt
parse_headers-Extends (suc fuel) zero limits header_begin position rest more headers h =
    absurd (omega arith)
parse_headers-Extends (suc fuel) (suc fuel') limits header_begin position [] more headers h =
    elim (Bool-cases (ltb limits.max_header_bytes (position - header_begin))) [
      | inl e ↦
          subst
            (λ x.
              Extends limits header_begin more x
                (parse_headers (suc fuel') limits header_begin position more headers))
            (sym (parse_headers-nil fuel limits header_begin position headers e))
            (full-Fails fuel' limits header_begin position more headers (ltb→lt _ _ e))
      | inr e ↦ unfold parse_headers in rw e tt
    ]
parse_headers-Extends (suc fuel) (suc fuel') limits header_begin position (b ∷ bs) more headers h =
    elim (Bool-cases (ltb limits.max_header_bytes (position - header_begin))) [
      | inl e ↦
          rw (parse_headers-full fuel limits header_begin position b bs headers e) (
            full-Fails fuel' limits header_begin position (b ∷ (bs ++ more)) headers (ltb→lt _ _ e))
      | inr e ↦
          rw
            (parse_headers-line fuel limits header_begin position b bs headers e
              (find_line_end (b ∷ bs)) refl)
            (rw
              (parse_headers-line fuel' limits header_begin position b (bs ++ more) headers e
                (find_line_end (b ∷ (bs ++ more))) refl)
              (round-Extends fuel fuel' limits header_begin position (b ∷ bs) more headers
                (find_line_end (b ∷ bs)) (find_line_end (b ∷ (bs ++ more))) refl refl
                (omega (arith, h))
                λ k headers' fits. rw (drop-append_le (k + 2) (b ∷ bs) more fits) (
                  parse_headers-Extends fuel fuel' limits header_begin (position + k + 2)
                    (drop (k + 2) (b ∷ bs)) more headers'
                    (omega (
                      arith,
                      h,
                      fits,
                      length-append (drop (k + 2) (b ∷ bs)) more,
                      length-drop (k + 2) (b ∷ bs),
                      length-append (b ∷ bs) more,
                    )))))
    ]
