-- ===== src/Rtsp/RequestParser/Position.antt =====
-- RtspRequestParser: the position that it walks counts the bytes that are gone.
use video_pipeline.Base.{
  ℕ, zero, suc, ◌+◌, ◌-◌, ◌≤◌, ◌≡◌, inl, inr, refl, subst, List, [], ◌∷◌, arith, ltb, ◌==◌, length,
  length-drop, take, drop, Bool-cases,
}
use video_pipeline.Rtsp.Lexical.{
  LineStatus, complete, need_more_data, error, find_line_end, partial_line_length,
}
use video_pipeline.Rtsp.Lexical.Lines.{find_line_end-bounds}
use video_pipeline.Rtsp.RequestParser.{
  RtspHeader, Limits, HeaderScan, headers_complete, stopped, need_more, parsed, failed, Checked,
  accepted, rejected, header_line, parse_headers,
}
use video_pipeline.Rtsp.RequestParser.Framing.{
  on_line, after_line, parse_headers-full, parse_headers-line,
}

-- The position counts the bytes that are gone, and is not before the one it starts from.
abbrev pub Tiles : ℕ → ℕ → HeaderScan → Type 0
Tiles from total (headers_complete headers position rest) =
    (from ≤ position) × (position + length rest ≡ total)
Tiles from total (stopped (parsed n request)) = ⊥
Tiles from total (stopped _) = Unit

Tiles-earlier :
    (from from' total : ℕ) (s : HeaderScan)
    → from' ≤ from
    → Tiles from total s
    → Tiles from' total s
Tiles-earlier from from' total (headers_complete headers position rest) h (t, e) =
    (omega (arith, h, t), e)
Tiles-earlier from from' total (stopped (parsed n request)) h t = t
Tiles-earlier from from' total (stopped need_more) h t = tt
Tiles-earlier from from' total (stopped (failed k)) h t = tt

checked-Tiles :
    (from total position : ℕ) (next : List RtspHeader → HeaderScan) (checked : Checked)
    → ((headers : List RtspHeader) → Tiles from total (next headers))
    → Tiles from total (elim checked [
      | rejected offset ↦ stopped (failed (position + offset))
      | accepted headers' ↦ next headers'
    ])
checked-Tiles from total position next (rejected offset) h = tt
checked-Tiles from total position next (accepted headers) h = h headers

on_line-Tiles :
    (limits : Limits) (header_begin position : ℕ) (rest : List ℕ) (headers : List RtspHeader)
    (next : List RtspHeader → HeaderScan) (s : LineStatus)
    → find_line_end rest ≡ s
    → ((headers : List RtspHeader) → Tiles position (position + length rest) (next headers))
    → Tiles position
        (position + length rest)
        (on_line limits header_begin position rest headers next s)
unfolding on_line
on_line-Tiles limits header_begin position rest headers next (error k) f h = tt
on_line-Tiles limits header_begin position rest headers next need_more_data f h =
    elim (Bool-cases (ltb limits.max_header_line_bytes (partial_line_length rest))) [
      | inl e ↦ rw e tt
      | inr e ↦
          elim (Bool-cases (ltb limits.max_header_bytes (position + length rest - header_begin))) [
            | inl k ↦ rw (e, k) tt
            | inr k ↦ rw (e, k) tt
          ]
    ]
on_line-Tiles limits header_begin position rest headers next (complete k) f h =
    elim (Bool-cases (ltb limits.max_header_line_bytes k)) [
      | inl e ↦ rw e tt
      | inr e ↦ elim (Bool-cases (k == 0)) [
        | inl z ↦
            rw (e, z)
              (omega arith, omega (arith, length-drop 2 rest, find_line_end-bounds rest k f))
        | inr some_line ↦
            rw (e, some_line)
              (checked-Tiles position (position + length rest) position next
                (header_line headers (take k rest)) h)
      ]
    ]

after_line-Tiles :
    (fuel : ℕ) (limits : Limits) (header_begin position : ℕ) (rest : List ℕ) (s : LineStatus)
    (headers : List RtspHeader)
    → find_line_end rest ≡ s
    → ((k : ℕ)
        → k + 2 ≤ length rest
        → Tiles
            (position + k + 2)
            (position + k + 2 + length (drop (k + 2) rest))
            (parse_headers fuel limits header_begin (position + k + 2) (drop (k + 2) rest) headers))
    → Tiles position
        (position + length rest)
        (after_line fuel limits header_begin position rest s headers)
after_line-Tiles fuel limits header_begin position rest (error k) headers f h = tt
after_line-Tiles fuel limits header_begin position rest need_more_data headers f h = tt
after_line-Tiles fuel limits header_begin position rest (complete k) headers f h =
    let fits = find_line_end-bounds rest k f in
    let total : position + k + 2 + length (drop (k + 2) rest) ≡ position + length rest =
      omega (arith, fits, length-drop (k + 2) rest) in
    Tiles-earlier (position + k + 2) position _ _ (omega arith) (
      subst
        (λ t.
          Tiles (position + k + 2) t
            (parse_headers fuel limits header_begin (position + k + 2) (drop (k + 2) rest) headers))
        total (h k fits))

pub parse_headers-Tiles :
    (fuel : ℕ) (limits : Limits) (header_begin position : ℕ) (rest : List ℕ)
    (headers : List RtspHeader)
    → Tiles position
        (position + length rest)
        (parse_headers fuel limits header_begin position rest headers)
parse_headers-Tiles zero limits header_begin position rest headers = unfold parse_headers in tt
parse_headers-Tiles (suc fuel) limits header_begin position [] headers =
    elim (Bool-cases (ltb limits.max_header_bytes (position - header_begin))) [
      | inl e ↦ unfold parse_headers in rw e tt
      | inr e ↦ unfold parse_headers in rw e tt
    ]
parse_headers-Tiles (suc fuel) limits header_begin position (b ∷ bs) headers =
    elim (Bool-cases (ltb limits.max_header_bytes (position - header_begin))) [
      | inl e ↦ rw (parse_headers-full fuel limits header_begin position b bs headers e) tt
      | inr e ↦
          rw
            (parse_headers-line fuel limits header_begin position b bs headers e
              (find_line_end (b ∷ bs)) refl)
            (on_line-Tiles limits header_begin position (b ∷ bs) headers _ (find_line_end (b ∷ bs))
              refl
              λ headers'.
                after_line-Tiles fuel limits header_begin position (b ∷ bs) (find_line_end (b ∷ bs))
                  headers' refl
                  λ k fits.
                    parse_headers-Tiles fuel limits header_begin (position + k + 2)
                      (drop (k + 2) (b ∷ bs)) headers')
    ]
