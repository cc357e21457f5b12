-- ===== src/Rtsp/RequestParser.antt =====
-- RtspRequestParser of src/media/protocol/rtsp/rtsp_request_parser.cpp: one request from the front of
-- the bytes received. Where the source walks `position` over the input, the model passes the rest of the
-- input along. The texts of errors, for logs only, are left out.
pub mod Framing
pub mod Stream
mod Position
pub mod Progress
pub mod Fragments
pub mod Clean
pub mod Accepted
mod Examples
use video_pipeline.Base.{
  ℕ, zero, suc, ◌+◌, ◌-◌, ◌^◌, Bool, true, false, not, ◌&&◌, ◌||◌, List, [], ◌∷◌, ◌++◌, Option,
  none, some, ltb, ◌==◌, if◌then◌else◌, length, take, drop, get_or,
}
use video_pipeline.Media.Bitstream.{is_empty}
use video_pipeline.Rtsp.Lexical.{
  ◌>>=◌, ◌>>◌, require, codes, all_of, ascii_equals_ignore_case, is_token_character, find,
  is_absolute_uri, trim_linear_whitespace, is_valid_field_value, parse_unsigned, LineStatus,
  complete, need_more_data, error, find_line_end, partial_line_length,
}

pub record RtspHeader : Type 0 where
  pub name : List ℕ
  pub value : List ℕ

pub record RtspRequest : Type 0 where
  pub method : List ℕ
  pub uri : List ℕ
  pub version_major : ℕ
  pub version_minor : ℕ
  pub headers : List RtspHeader
  pub body : List ℕ

-- The status and the numbers that go with it; `request` is written only with the status Complete.
-- The reason of an error, a text for logs, is left out.
pub data RtspRequestParseResult : Type 0 where
  need_more : RtspRequestParseResult
  parsed : (consumed : ℕ) (request : RtspRequest) → RtspRequestParseResult
  failed : (error_offset : ℕ) → RtspRequestParseResult

pub record Limits : Type 0 where
  pub max_request_line_bytes : ℕ
  pub max_header_line_bytes : ℕ
  pub max_header_bytes : ℕ
  pub max_body_bytes : ℕ

-- An `unsigned int`.
abbrev uint_max : ℕ
uint_max = 2 ^ 32 - 1

abbrev strip_prefix : List ℕ → List ℕ → Option (List ℕ)
strip_prefix [] value = some value
strip_prefix (p ∷ ps) [] = none
strip_prefix (p ∷ ps) (v ∷ vs) = let rest = strip_prefix ps vs in if p == v then rest else none

unfoldable pub parse_version : List ℕ → Option (ℕ × ℕ)
parse_version value = do
  digits ← strip_prefix (codes "RTSP/") value
  dot ← find 46 digits
  elim (find 46 (drop (dot + 1) digits)) [
    | some _ ↦ none
    | none ↦ do
      major ← parse_unsigned (take dot digits) uint_max
      minor ← parse_unsigned (drop (dot + 1) digits) uint_max
      some (major, minor)
  ]

unfoldable pub parse_request_line : List ℕ → Option RtspRequest
unfolding parse_version
parse_request_line line = do
  first_space ← find 32 line
  let after = drop (first_space + 1) line
  second_space ← find 32 after
  let version = drop (second_space + 1) after
  require (not (first_space == 0 || second_space == 0 || is_empty version))
  elim (find 32 version) [
    | some _ ↦ none
    | none ↦ do
      let method = take first_space line
      let uri = take second_space after
      require (all_of is_token_character method && is_absolute_uri uri)
      (major, minor) ← parse_version version
      some (record {
        method = method;
        uri = uri;
        version_major = major;
        version_minor = minor;
        headers = [];
        body = [];
      })
  ]

-- HeaderValues.
unfoldable pub header_values : List RtspHeader → List ℕ → List (List ℕ)
header_values [] name = []
header_values (h ∷ hs) name =
    let values = header_values hs name in
    if ascii_equals_ignore_case h.name name then h.value ∷ values else values

-- HeaderValue: the values joined by a comma and a space.
abbrev joined : List (List ℕ) → List ℕ
joined [] = []
joined (v ∷ []) = v
joined (v ∷ w ∷ vs) = v ++ (codes ", " ++ joined (w ∷ vs))

abbrev pub header_value : RtspRequest → List ℕ → List ℕ
header_value request name = joined (header_values request.headers name)

-- The value of a continuation line, behind the last header's.
append_to_last : List RtspHeader → List ℕ → List RtspHeader
append_to_last [] more = []
append_to_last (h ∷ []) more =
    record h { value = if is_empty h.value then more else h.value ++ (32 ∷ more) } ∷ []
append_to_last (h ∷ h' ∷ hs) more = h ∷ append_to_last (h' ∷ hs) more

-- The headers with the line taken in, or the offset in the line of what is wrong with it.
pub data Checked : Type 0 where
  accepted : List RtspHeader → Checked
  rejected : ℕ → Checked

continue_header : List RtspHeader → List ℕ → Checked
unfolding append_to_last
continue_header headers line =
    let continuation = trim_linear_whitespace line in
    if is_empty headers || not (is_valid_field_value continuation)
    then rejected 0
    else if is_empty continuation
    then accepted headers
    else accepted (append_to_last headers continuation)

-- The line with the index of its first colon.
new_header : List RtspHeader → List ℕ → Option ℕ → Checked
new_header headers line none = rejected 0
new_header headers line (some colon) =
    let name = take colon line in
    let value = trim_linear_whitespace (drop (colon + 1) line) in
    if colon == 0 || not (all_of is_token_character name)
    then rejected 0
    else if not (is_valid_field_value value)
    then rejected (colon + 1)
    else accepted (headers ++ record { name = name; value = value } ∷ [])

pub header_line : List RtspHeader → List ℕ → Checked
unfolding continue_header new_header
header_line headers line =
    let first = get_or line 0 0 in
    if first == 32 || first == 9
    then continue_header headers line
    else new_header headers line (find 58 line)

-- What the loop over the header lines ends with: the headers, the position behind the empty line and the
-- input from there; or the result of Parse.
pub data HeaderScan : Type 0 where
  headers_complete : (headers : List RtspHeader) (position : ℕ) (rest : List ℕ) → HeaderScan
  stopped : RtspRequestParseResult → HeaderScan

-- Each round takes at least a line end, so as many rounds as there are bytes are enough.
pub parse_headers : ℕ → Limits → ℕ → ℕ → List ℕ → List RtspHeader → HeaderScan
unfolding header_line
parse_headers zero limits header_begin position rest headers = stopped need_more
parse_headers (suc fuel) limits header_begin position [] headers =
    if ltb limits.max_header_bytes (position - header_begin)
    then stopped (failed header_begin)
    else stopped need_more
parse_headers (suc fuel) limits header_begin position (b ∷ bs) headers =
    let rest = b ∷ bs in
    if ltb limits.max_header_bytes (position - header_begin)
    then stopped (failed position)
    else elim (find_line_end rest) [
      | error offset ↦ stopped (failed (position + offset))
      | need_more_data ↦
          if ltb limits.max_header_line_bytes (partial_line_length rest)
          then stopped (failed position)
          else if ltb limits.max_header_bytes (position + length rest - header_begin)
          then stopped (failed header_begin)
          else stopped need_more
      | complete size ↦
          if ltb limits.max_header_line_bytes size
          then stopped (failed position)
          else if size == 0
          then headers_complete headers (position + 2) (drop 2 rest)
          else elim (header_line headers (take size rest)) [
            | rejected offset ↦ stopped (failed (position + offset))
            | accepted headers' ↦
                parse_headers fuel limits header_begin (position + size + 2) (drop (size + 2) rest)
                  headers'
          ]
    ]

-- The Content-Length values must be numbers and agree.
content_length : Limits → List (List ℕ) → Option ℕ → Option ℕ
content_length limits [] known = elim known [ none ↦ some 0 | some n ↦ some n ]
content_length limits (value ∷ values) known = do
  current ← parse_unsigned value limits.max_body_bytes
  require (elim known [ none ↦ true | some n ↦ current == n ])
  content_length limits values (some current)

-- Parse behind the value of Content-Length, if it is valid.
with_content_length :
    ℕ → RtspRequest → List RtspHeader → ℕ → List ℕ → Option ℕ → RtspRequestParseResult
with_content_length header_begin request headers position rest none = failed header_begin
with_content_length header_begin request headers position rest (some size) =
    if ltb (length rest) size
    then need_more
    else parsed (position + size) (record request { headers = headers; body = take size rest })

-- Parse behind the headers.
finish : Limits → ℕ → RtspRequest → List RtspHeader → ℕ → List ℕ → RtspRequestParseResult
unfolding content_length with_content_length
finish limits header_begin request headers position rest =
    if ltb limits.max_header_bytes (position - header_begin)
    then failed header_begin
    else with_content_length header_begin request headers position rest
        (content_length limits (header_values headers (codes "Content-Length")) none)

-- Parse from its header lines on.
pub conclude : Limits → ℕ → RtspRequest → HeaderScan → RtspRequestParseResult
unfolding finish
conclude limits header_begin request (stopped result) = result
conclude limits header_begin request (headers_complete headers position rest) =
    finish limits header_begin request headers position rest

-- Parse behind the request line, at the position of the header section.
pub with_request : Limits → ℕ → Option RtspRequest → List ℕ → RtspRequestParseResult
unfolding conclude parse_headers
with_request limits header_begin none rest = failed 0
with_request limits header_begin (some request) rest =
    conclude limits header_begin request
      (parse_headers (suc (length rest)) limits header_begin header_begin rest [])

-- Parse behind the end of the request line.
pub first_line : Limits → List ℕ → LineStatus → RtspRequestParseResult
unfolding with_request
first_line limits input (error offset) = failed offset
first_line limits input need_more_data =
    if ltb limits.max_request_line_bytes (partial_line_length input)
    then failed limits.max_request_line_bytes
    else need_more
first_line limits input (complete size) =
    if ltb limits.max_request_line_bytes size
    then failed size
    else with_request limits (size + 2) (parse_request_line (take size input))
        (drop (size + 2) input)

unfoldable pub parse : Limits → List ℕ → RtspRequestParseResult
unfolding first_line
parse limits input = first_line limits input (find_line_end input)
