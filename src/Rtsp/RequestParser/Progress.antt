-- ===== src/Rtsp/RequestParser/Progress.antt =====
-- RtspRequestParser: a request is at least a byte long, so a loop over requests ends.
use video_pipeline.Base.{
  ℕ, suc, ◌+◌, ◌-◌, ◌≤◌, ◌≡◌, inl, inr, subst, List, [], Option, none, some, arith, ltb, length,
  drop, take, Bool-cases,
}
use video_pipeline.Rtsp.Lexical.{
  codes, LineStatus, complete, need_more_data, error, find_line_end, partial_line_length,
}
use video_pipeline.Rtsp.RequestParser.{
  RtspHeader, RtspRequest, RtspRequestParseResult, Limits, HeaderScan, headers_complete, stopped,
  need_more, parsed, failed, header_values, content_length, with_content_length, finish, conclude,
  first_line, with_request, parse_request_line, parse,
}
use video_pipeline.Rtsp.RequestParser.Position.{Tiles, parse_headers-Tiles}

Takes : RtspRequestParseResult → Type 0
Takes (parsed n request) = 1 ≤ n
Takes _ = Unit

with_content_length-Takes :
    (header_begin : ℕ) (request : RtspRequest) (headers : List RtspHeader) (position : ℕ)
    (rest : List ℕ) (o : Option ℕ)
    → 1 ≤ position
    → Takes (with_content_length header_begin request headers position rest o)
unfolding Takes with_content_length
with_content_length-Takes header_begin request headers position rest none h = tt
with_content_length-Takes header_begin request headers position rest (some size) h =
    elim (Bool-cases (ltb (length rest) size)) [ inl e ↦ rw e tt | inr e ↦ rw e (omega arith) ]

conclude-Takes :
    (limits : Limits) (header_begin total : ℕ) (request : RtspRequest) (s : HeaderScan)
    → 1 ≤ header_begin
    → Tiles header_begin total s
    → Takes (conclude limits header_begin request s)
unfolding Takes conclude finish
conclude-Takes limits header_begin total request (stopped need_more) h t = tt
conclude-Takes limits header_begin total request (stopped (failed k)) h t = tt
conclude-Takes limits header_begin total request (stopped (parsed n r)) h t = absurd t
conclude-Takes limits header_begin total request (headers_complete headers position rest) h t =
    let lengths = content_length limits (header_values headers (codes "Content-Length")) none in
    elim (Bool-cases (ltb limits.max_header_bytes (position - header_begin))) [
      | inl e ↦ rw e tt
      | inr e ↦ rw e (
          with_content_length-Takes header_begin request headers position rest lengths
            (omega (arith, t.0)))
    ]

with_request-Takes :
    (limits : Limits) (position : ℕ) (o : Option RtspRequest) (rest : List ℕ)
    → 1 ≤ position
    → Takes (with_request limits position o rest)
unfolding Takes with_request
with_request-Takes limits position none rest h = tt
with_request-Takes limits position (some request) rest h =
    conclude-Takes limits position _ request _ h
      (parse_headers-Tiles (suc (length rest)) limits position position rest [])

first_line-Takes :
    (limits : Limits) (input : List ℕ) (s : LineStatus) → Takes (first_line limits input s)
unfolding Takes first_line
first_line-Takes limits input (error k) = tt
first_line-Takes limits input need_more_data =
    elim (Bool-cases (ltb limits.max_request_line_bytes (partial_line_length input))) [
      | inl e ↦ rw e tt
      | inr e ↦ rw e tt
    ]
first_line-Takes limits input (complete k) =
    elim (Bool-cases (ltb limits.max_request_line_bytes k)) [
      | inl e ↦ rw e tt
      | inr e ↦ rw e (
          with_request-Takes limits (k + 2) (parse_request_line (take k input)) (drop (k + 2) input)
            (omega arith))
    ]

pub parse-takes :
    (limits : Limits) (input : List ℕ) {n : ℕ} {request : RtspRequest}
    → parse limits input ≡ parsed n request
    → 1 ≤ n
unfolding Takes parse
parse-takes limits input e = subst Takes e (first_line-Takes limits input (find_line_end input))
