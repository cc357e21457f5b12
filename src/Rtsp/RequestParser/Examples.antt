-- ===== src/Rtsp/RequestParser/Examples.antt =====
-- RtspRequestParser on a concrete request.
use video_pipeline.Base.{ℕ, ◌≡◌, refl, List, [], ◌∷◌, ◌++◌, arith}
use video_pipeline.Rtsp.Lexical.{
  codes, is_token_character, ascii_equals_ignore_case, parse_unsigned, find_line_end,
  is_absolute_uri, trim_linear_whitespace,
}
use video_pipeline.Rtsp.RequestParser.{
  RtspRequest, Limits, parse, parsed, need_more, failed, parse_request_line, header_values,
}
use video_pipeline.Rtsp.RequestParser.Accepted.{Accepted, parse-Accepted}
use video_pipeline.Rtsp.RequestParser.Fragments.{parse-cut}

abbrev limits : Limits
limits = record {
  max_request_line_bytes = 8192;
  max_header_line_bytes = 8192;
  max_header_bytes = 65536;
  max_body_bytes = 1048576;
}

-- Its lines end with CR and LF.
abbrev line : List ℕ → List ℕ
line text = text ++ (13 ∷ 10 ∷ [])

abbrev front : List ℕ
front = line (codes "PLAY rtsp://h/a%20b RTSP/1.0") ++ line (codes "CSeq: 3") ++ codes "Content-"

abbrev back : List ℕ
back = line (codes "Length: 2") ++ line [] ++ codes "hi"

abbrev request : RtspRequest
request = record {
  method = codes "PLAY";
  uri = codes "rtsp://h/a%20b";
  version_major = 1;
  version_minor = 0;
  headers =
      record { name = codes "CSeq"; value = codes "3" }
      ∷ record { name = codes "Content-Length"; value = codes "2" }
      ∷ [];
  body = codes "hi";
}

whole : parse limits (front ++ back) ≡ parsed 62 request
unfolding parse find_line_end parse_request_line is_token_character is_absolute_uri parse_unsigned
    trim_linear_whitespace header_values ascii_equals_ignore_case
whole = refl

parse-cut_example : parse limits front ≡ need_more
parse-cut_example = parse-cut limits front back whole (omega arith)

bad : parse limits (line (codes "PLAY  *")) ≡ failed 0
unfolding parse find_line_end parse_request_line
bad = refl

parse-Accepted_example : Accepted limits request
parse-Accepted_example = parse-Accepted limits (front ++ back) (omega arith) whole
