-- ===== src/Rtsp/Auth/Examples.antt =====
-- Logins with the user `u` and the password `pw`. The digest function of the examples repeats one digit.
use video_pipeline.Base.{
  ◌≡◌, ◌≢◌, ◌↔◌, refl, true, [], ◌∷◌, ◌++◌, none, some, arith, ap, get_or, replicate,
}
use video_pipeline.Base.Int.{pos, ◌-ℤ◌, ◌*ℤ◌}
use video_pipeline.Base.Text.{Text, text_eq}
use video_pipeline.Media.Bitstream.{base64_encode}
use video_pipeline.Rtsp.Lexical.{lower, codes, ascii_equals_ignore_case, is_hex_digit}
use video_pipeline.Rtsp.RequestParser.{RtspRequest, header_values}
use video_pipeline.Rtsp.Auth.{
  AuthOptions, AuthState, digest, constant_time_equals, decode_base64, parse_digest_parameters,
  parse_hex32, authenticate_request,
}
use video_pipeline.Rtsp.Auth.Compare.{constant_time_equals_iff}
use video_pipeline.Rtsp.Auth.Replay.{Attempt, run, authenticate_request_once}
use video_pipeline.Rtsp.Auth.Rounds.{Run, parse_digest_parameters-Run}
use video_pipeline.Rtsp.Auth.Basic.{read_back, decode_base64-encode}

parameters_read :
    parse_digest_parameters (codes "username=\"u\", NC = 1 ,x=\"a\\\"b\"")
    ≡ some
        ((codes "username", codes "u") ∷ (codes "nc", codes "1") ∷ (codes "x", codes "a\"b") ∷ [])
unfolding parse_digest_parameters text_eq lower
parameters_read = refl

parse_digest_parameters-Run_example :
    Run (codes "a=1,b=2") [] (parse_digest_parameters (codes "a=1,b=2"))
parse_digest_parameters-Run_example = parse_digest_parameters-Run (codes "a=1,b=2")

hex_read : parse_hex32 (codes "0000001F") ≡ some 31
unfolding parse_hex32 is_hex_digit
hex_read = refl

-- The difference of the lengths is kept in a byte, so 256 zeros more are not seen.
zeros_not_seen : constant_time_equals (codes "pw") (codes "pw" ++ replicate 256 0) ≡ true
unfolding constant_time_equals
zeros_not_seen = refl

constant_time_equals_iff_example :
    (constant_time_equals (codes "pw") (codes "pw2") ≡ true) ↔ (codes "pw" ≡ codes "pw2")
constant_time_equals_iff_example =
    constant_time_equals_iff (codes "pw") (codes "pw2") (omega arith) (omega arith) (omega arith)
      (omega arith)

decode_base64-encode_example :
    decode_base64 (base64_encode (codes "u:pw")) ≡ read_back (codes "u:pw")
decode_base64-encode_example = decode_base64-encode (codes "u:pw") (omega arith) (λ e. cc)

abbrev options : AuthOptions
options = record {
  auth_mode = digest;
  auth_username = codes "u";
  auth_password = codes "pw";
  auth_realm = codes "r";
  auth_nonce_ttl_ms = pos 1000;
}

abbrev same_digest : Text → Text
same_digest text = replicate 32 b'a'

abbrev header : Text
header =
    codes "Digest username=\"u\", realm=\"r\", nonce=\"n\", uri=\"rtsp://h\", "
    ++ (codes "response=\""
        ++ (replicate 32 b'a' ++ codes "\", qop=auth, nc=00000001, cnonce=\"c\""))

abbrev play : RtspRequest
play = record {
  method = codes "PLAY";
  uri = codes "rtsp://h";
  version_major = 1;
  version_minor = 0;
  headers = record { name = codes "Authorization"; value = header } ∷ [];
  body = [];
}

abbrev in_use : AuthState
in_use = record { auth_nonce = codes "n"; auth_nonce_created_at = 5; digest_nonce_count = 0 }

accepted_once : (authenticate_request same_digest options 6 (codes "m") true play in_use).0 ≡ none
unfolding authenticate_request text_eq lower ascii_equals_ignore_case header_values is_hex_digit
    ◌-ℤ◌ ◌*ℤ◌
accepted_once = refl

abbrev again_later : Attempt
again_later = record { now = 7; fresh = codes "m"; may_continue = true; request = play }

authenticate_request_once_example :
    (authenticate_request same_digest options 8 (codes "m") true play (
      run same_digest options
        (again_later ∷ [])
        (authenticate_request same_digest options 6 (codes "m") true play in_use).1)).0
    ≢ none
authenticate_request_once_example =
    authenticate_request_once same_digest options 6 (codes "m") true play in_use refl accepted_once
      (again_later ∷ []) ((λ e. absurd (omega (arith, ap (λ t. get_or t 0 0) e))), tt) 8 (codes "m")
      true
