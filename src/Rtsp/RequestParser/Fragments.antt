-- ===== src/Rtsp/RequestParser/Fragments.antt =====
-- RtspRequestParser on a byte stream: however a request is cut, it is found when its last byte is there.
use video_pipeline.Base.{
  ℕ, suc, ◌+◌, ◌-◌, ◌≤◌, ◌<◌, ◌≡◌, inl, inr, refl, ap, sym, subst, ◌∙◌, Bool, true, false, List, [],
  ◌++◌, Option, none, some, arith, ltb, if◌then◌else◌, length, length-append, length-drop, lt→ltb,
  ltb→lt, ltb-false→le, le→ltb-false, take-append_le, drop-append_le, take, drop, Bool-cases,
}
use video_pipeline.Rtsp.Lexical.{
  codes, LineStatus, complete, need_more_data, error, find_line_end, partial_line_length,
}
use video_pipeline.Rtsp.Lexical.Lines.{find_line_end-bounds, find_line_end-grows}
use video_pipeline.Rtsp.RequestParser.{
  RtspHeader, RtspRequest, RtspRequestParseResult, Limits, HeaderScan, headers_complete, stopped,
  need_more, parsed, failed, parse_headers, header_values, content_length, with_content_length,
  finish, conclude, first_line, with_request, parse_request_line, parse,
}
use video_pipeline.Rtsp.RequestParser.Framing.{Fails, Extends, partial_mono}
use video_pipeline.Rtsp.RequestParser.Stream.{found, parse_headers-Extends}
use video_pipeline.Rtsp.RequestParser.Position.{Tiles, parse_headers-Tiles}

-- A result that stays when more bytes come, and takes no more than there are.
abbrev Stays : ℕ → RtspRequestParseResult → RtspRequestParseResult → Type 0
Stays size (parsed n request) result = (result ≡ parsed n request) × (n ≤ size)
Stays size (failed offset) result = (offset' : ℕ) × (result ≡ failed offset')
Stays size need_more result = Unit

-- The end of Parse, once the length of the body is looked up.
with_length :
    Bool → Option ℕ → ℕ → RtspRequest → List RtspHeader → ℕ → List ℕ → RtspRequestParseResult
with_length full o header_begin request headers position rest =
    if full
    then failed header_begin
    else with_content_length header_begin request headers position rest o

with_length-Stays :
    (full : Bool) (o : Option ℕ) (header_begin : ℕ) (request : RtspRequest)
    (headers : List RtspHeader) (position : ℕ) (rest more : List ℕ)
    → Stays
        (position + length rest)
        (with_length full o header_begin request headers position rest)
        (with_length full o header_begin request headers position (rest ++ more))
unfolding with_length with_content_length
with_length-Stays true o header_begin request headers position rest more = (header_begin, refl)
with_length-Stays false none header_begin request headers position rest more = (header_begin, refl)
with_length-Stays false (some size) header_begin request headers position rest more =
    elim (Bool-cases (ltb (length rest) size)) [
      | inl e ↦ rw e tt
      | inr e ↦
          let fits = ltb-false→le (length rest) size e in
          rw
            (
              e,
              le→ltb-false (length (rest ++ more)) size
                  (omega (arith, fits, length-append rest more)),
            )
            (
              ap
                  (λ body.
                    parsed (position + size) (record request { headers = headers; body = body }))
                  (take-append_le size rest more fits),
              omega (arith, fits),
            )
    ]

conclude-failed :
    (limits : Limits) (header_begin : ℕ) (request : RtspRequest) (s : HeaderScan)
    → Fails limits header_begin s
    → (offset : ℕ) × (conclude limits header_begin request s ≡ failed offset)
unfolding conclude
conclude-failed limits header_begin request (stopped (failed offset)) h = (offset, refl)
conclude-failed limits header_begin request (stopped need_more) h = absurd h
conclude-failed limits header_begin request (stopped (parsed n r)) h = absurd h
conclude-failed limits header_begin request (headers_complete headers position rest) h =
    (header_begin, rw (lt→ltb _ _ h) refl)

conclude-Stays :
    (limits : Limits) (header_begin total : ℕ) (request : RtspRequest) (more : List ℕ)
    (s s' : HeaderScan)
    → Tiles header_begin total s
    → Extends limits header_begin more s s'
    → Stays total (conclude limits header_begin request s) (conclude limits header_begin request s')
unfolding conclude finish with_length
conclude-Stays limits header_begin total request more (stopped (failed offset)) s' t h =
    conclude-failed limits header_begin request s' h
conclude-Stays limits header_begin total request more (stopped need_more) s' t h = tt
conclude-Stays limits header_begin total request more (stopped (parsed n r)) s' t h = absurd t
conclude-Stays limits header_begin total request more (headers_complete headers position rest) s' t
      h =
    subst
      (λ x.
        Stays total (finish limits header_begin request headers position rest)
          (conclude limits header_begin request x))
      (sym h)
      (subst
        (λ n.
          Stays n (finish limits header_begin request headers position rest)
            (finish limits header_begin request headers position (rest ++ more)))
        t.1
        (with_length-Stays (ltb limits.max_header_bytes (position - header_begin))
          (content_length limits (header_values headers (codes "Content-Length")) none) header_begin
          request headers position rest more))

long-line :
    (limits : Limits) (input more : List ℕ) (t : LineStatus)
    → find_line_end input ≡ need_more_data
    → find_line_end (input ++ more) ≡ t
    → limits.max_request_line_bytes < partial_line_length input
    → (offset : ℕ) × (first_line limits (input ++ more) t ≡ failed offset)
unfolding first_line
long-line limits input more (error k) f g h = (k, refl)
long-line limits input more need_more_data f g h = (
  limits.max_request_line_bytes,
  rw
      (lt→ltb limits.max_request_line_bytes (partial_line_length (input ++ more))
        (omega (arith, partial_mono input more)))
      refl,
)
long-line limits input more (complete k) f g h = (
  k,
  rw
      (lt→ltb limits.max_request_line_bytes k
        (omega (arith, (find_line_end-grows input more k f g).0)))
      refl,
)

request-Stays :
    (limits : Limits) (total position : ℕ) (rest more : List ℕ) (o : Option RtspRequest)
    → position + length rest ≡ total
    → Stays total
        (with_request limits position o rest)
        (with_request limits position o (rest ++ more))
unfolding with_request
request-Stays limits total position rest more none e = (0, refl)
request-Stays limits total position rest more (some request) e =
    conclude-Stays limits position total request more _ _
      (subst
        (λ n. Tiles position n (parse_headers (suc (length rest)) limits position position rest []))
        e (parse_headers-Tiles (suc (length rest)) limits position position rest []))
      (parse_headers-Extends (suc (length rest)) (suc (length (rest ++ more))) limits position
        position rest more [] (omega arith))

-- A request line and what follows it.
whole-line :
    (limits : Limits) (input more : List ℕ) (k : ℕ)
    → k + 2 ≤ length input
    → Stays
        (length input)
        (first_line limits input (complete k))
        (first_line limits (input ++ more) (complete k))
unfolding first_line
whole-line limits input more k fits = elim (Bool-cases (ltb limits.max_request_line_bytes k)) [
  | inl e ↦ rw e (k, refl)
  | inr e ↦
      rw
        (
          e,
          take-append_le k input more (omega (arith, fits)),
          drop-append_le (k + 2) input more fits,
        )
        (request-Stays limits (length input) (k + 2) (drop (k + 2) input) more
          (parse_request_line (take k input)) (omega (arith, fits, length-drop (k + 2) input)))
]

line-Stays :
    (limits : Limits) (input more : List ℕ) (s t : LineStatus)
    → find_line_end input ≡ s
    → find_line_end (input ++ more) ≡ t
    → Stays (length input) (first_line limits input s) (first_line limits (input ++ more) t)
unfolding first_line
line-Stays limits input more (error k) t f g =
    subst (λ t'. Stays (length input) (failed k) (first_line limits (input ++ more) t'))
      (sym (found input more t (error k) (λ e. ground (arith, e)) f g)) (k, refl)
line-Stays limits input more need_more_data t f g =
    elim (Bool-cases (ltb limits.max_request_line_bytes (partial_line_length input))) [
      | inl e ↦ rw e (long-line limits input more t f g (ltb→lt _ _ e))
      | inr e ↦ rw e tt
    ]
line-Stays limits input more (complete k) t f g =
    subst
      (λ t'.
        Stays (length input) (first_line limits input (complete k))
          (first_line limits (input ++ more) t'))
      (sym (found input more t (complete k) (λ e. ground (arith, e)) f g))
      (whole-line limits input more k (find_line_end-bounds input k f))

-- What Parse gives stays when more bytes come: a request is the same and takes the same bytes, and an
-- error stays an error.
parse-Stays :
    (limits : Limits) (input more : List ℕ)
    → Stays (length input) (parse limits input) (parse limits (input ++ more))
unfolding parse
parse-Stays limits input more =
    line-Stays limits input more (find_line_end input) (find_line_end (input ++ more)) refl refl

-- A request that is found at the front of the input is found there with the same length whatever bytes follow it,
-- and its bytes are all there.
pub parse-append :
    (limits : Limits) (input more : List ℕ) {n : ℕ} {request : RtspRequest}
    → parse limits input ≡ parsed n request
    → (parse limits (input ++ more) ≡ parsed n request) × (n ≤ length input)
parse-append limits input more e =
    subst (λ x. Stays (length input) x (parse limits (input ++ more))) e
      (parse-Stays limits input more)

-- An input that is refused is refused whatever bytes follow it.
pub parse-append-failed :
    (limits : Limits) (input more : List ℕ) {offset : ℕ}
    → parse limits input ≡ failed offset
    → (offset' : ℕ) × (parse limits (input ++ more) ≡ failed offset')
parse-append-failed limits input more e =
    subst (λ x. Stays (length input) x (parse limits (input ++ more))) e
      (parse-Stays limits input more)

consumed_of : RtspRequestParseResult → ℕ
consumed_of (parsed n request) = n
consumed_of _ = 0

waits :
    (front back : List ℕ) (request : RtspRequest) (x y : RtspRequestParseResult)
    → Stays (length front) x y
    → y ≡ parsed (length (front ++ back)) request
    → 1 ≤ length back
    → x ≡ need_more
waits front back request need_more y s e some_bytes = refl
waits front back request (failed offset) y (offset', k) e some_bytes =
    absurd (ground (arith, sym k ∙ e))
waits front back request (parsed n r) y (k, fits) e some_bytes =
    let size : n ≡ length (front ++ back) = unfold consumed_of in ap consumed_of (sym k ∙ e) in
    absurd (omega (arith, size, fits, some_bytes, length-append front back))

-- The rest of a whole request is waited for: of its bytes no smaller number gives a request or an error,
-- so it may be cut anywhere on its way.
pub parse-cut :
    (limits : Limits) (front back : List ℕ) {request : RtspRequest}
    → parse limits (front ++ back) ≡ parsed (length (front ++ back)) request
    → 1 ≤ length back
    → parse limits front ≡ need_more
parse-cut limits front back {request} e some_bytes =
    waits front back request (parse limits front) (parse limits (front ++ back))
      (parse-Stays limits front back) e some_bytes
