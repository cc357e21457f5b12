-- ===== src/Rtsp/Connection/Examples.antt =====
-- RtspConnection on a request with a frame behind it, and on two logins in one read.
use video_pipeline.Base.{ℕ, suc, ◌≡◌, refl, List, [], ◌∷◌, ◌++◌}
use video_pipeline.Media.Wire.{read_u16}
use video_pipeline.Rtsp.Lexical.{
  codes, is_token_character, ascii_equals_ignore_case, parse_unsigned, find_line_end,
  is_absolute_uri, trim_linear_whitespace,
}
use video_pipeline.Rtsp.RequestParser.{Limits, parse, parse_request_line, header_values}
use video_pipeline.Rtsp.Connection.{
  Event, request, interleaved_frame, parse_error, Answer, goes_on, closes_after_flush, receive,
}
use video_pipeline.Rtsp.Connection.Turns.{Prompt, open_at}
use video_pipeline.Rtsp.Connection.Chunks.{receive_all, concat, receive_all_lem}

abbrev limits : Limits
limits = record {
  max_request_line_bytes = 100;
  max_header_line_bytes = 100;
  max_header_bytes = 1000;
  max_body_bytes = 1000;
}

-- Notes the sizes of the frames, and 0 for a request.
abbrev note : List ℕ → Event → List ℕ × Answer
note s (request r) = (0 ∷ s, goes_on)
note s (interleaved_frame channel payload) = (channel ∷ s, goes_on)
note s (parse_error offset) = (s, closes_after_flush)

note-Prompt : Prompt note
note-Prompt = record {
  on_request = λ s r e. absurd (cc);
  on_frame = λ s channel payload e. absurd (cc);
  on_error = λ s offset e. absurd (cc);
  any_error = λ s offset offset'. refl;
}

abbrev options_request : List ℕ
options_request = codes "OPTIONS * RTSP/1.0" ++ (13 ∷ 10 ∷ 13 ∷ 10 ∷ [])

abbrev frame_bytes : List ℕ
frame_bytes = 36 ∷ 7 ∷ 0 ∷ 2 ∷ 1 ∷ 2 ∷ []

both_read :
    receive limits note (open_at [] []) (options_request ++ frame_bytes) ≡ open_at (7 ∷ 0 ∷ []) []
unfolding receive read_u16 parse find_line_end parse_request_line is_token_character is_absolute_uri
    parse_unsigned trim_linear_whitespace header_values ascii_equals_ignore_case
both_read = refl

receive_all_lem_example :
    receive_all limits note
      (open_at [] [])
      (options_request ∷ (36 ∷ 7 ∷ []) ∷ (0 ∷ 2 ∷ 1 ∷ 2 ∷ []) ∷ [])
    ≡ receive limits note
        (open_at [] [])
        (options_request ++ concat ((36 ∷ 7 ∷ []) ∷ (0 ∷ 2 ∷ 1 ∷ 2 ∷ []) ∷ []))
receive_all_lem_example =
    receive_all_lem limits note note-Prompt (open_at [] []) options_request
      ((36 ∷ 7 ∷ []) ∷ (0 ∷ 2 ∷ 1 ∷ 2 ∷ []) ∷ [])

-- A handler that counts requests and closes behind a flush at each, as a session does on a failed login
-- that is one too many: a second request is still handled if it is in the same read, and is not if it
-- comes in the next.
abbrev refuse : ℕ → Event → ℕ × Answer
refuse n (request r) = (suc n, closes_after_flush)
refuse n _ = (n, closes_after_flush)

second_handled :
    (receive limits refuse (open_at 0 []) (options_request ++ options_request)).session ≡ 2
unfolding receive read_u16 parse find_line_end parse_request_line is_token_character is_absolute_uri
    parse_unsigned trim_linear_whitespace header_values ascii_equals_ignore_case
second_handled = refl

second_not_read :
    (receive_all limits refuse (open_at 0 []) (options_request ∷ options_request ∷ [])).session ≡ 1
unfolding receive_all receive read_u16 parse find_line_end parse_request_line is_token_character
    is_absolute_uri parse_unsigned trim_linear_whitespace header_values ascii_equals_ignore_case
second_not_read = refl
