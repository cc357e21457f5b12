-- ===== src/Rtsp/Auth.antt =====
-- The logins of src/media/protocol/rtsp/rtsp_session.cpp: RtspClientSession::AuthenticateRequest with
-- what it calls. The MD5 of Boost is the parameter `md5_hex`; the text of a fresh nonce, which is random,
-- the answer of RecordAuthFailure, and the times, in nanoseconds of the steady clock, are arguments.
pub mod Compare
pub mod Replay
pub mod Rounds
pub mod Basic
mod Examples
use Prim.Native.Nat.{bit_or, bit_xor}
use video_pipeline.Base.{
  ℕ, zero, suc, ◌+◌, ◌-◌, ◌*◌, ◌/◌, ◌%◌, ◌^◌, Bool, true, false, not, ◌&&◌, ◌||◌, List, [], ◌∷◌,
  ◌++◌, map, Option, none, some, ltb, leb, ◌==◌, if◌then◌else◌, length, take, drop, get_or,
}
use video_pipeline.Base.Int.{ℤ, pos, ◌-ℤ◌, ◌*ℤ◌, ltb_ℤ}
use video_pipeline.Base.Text.{Text, text_eq}
use video_pipeline.Media.Bitstream.{is_empty, base64_table}
use video_pipeline.Rtsp.Lexical.{
  ◌>>=◌, ◌>>◌, require, codes, all_of, lower, ascii_equals_ignore_case, is_hex_digit, find,
  is_blank, trim_back,
}
use video_pipeline.Rtsp.RequestParser.{RtspRequest, header_values}

-- The loop of ConstantTimeEquals: a byte past the end of the shorter text counts as 0.
pub differences : ℕ → Text → Text → ℕ
differences d [] [] = d
differences d (a ∷ lhs) [] = differences (bit_or d (bit_xor a 0) % 2 ^ 8) lhs []
differences d [] (b ∷ rhs) = differences (bit_or d (bit_xor 0 b) % 2 ^ 8) [] rhs
differences d (a ∷ lhs) (b ∷ rhs) = differences (bit_or d (bit_xor a b) % 2 ^ 8) lhs rhs

unfoldable pub constant_time_equals : Text → Text → Bool
unfolding differences
constant_time_equals lhs rhs = differences (bit_xor (length lhs) (length rhs) % 2 ^ 8) lhs rhs == 0

-- A character of a group of four at its index, behind so many padding characters: its digit and their
-- number.
pub digit_at : ℕ → ℕ → ℕ → Option (ℕ × ℕ)
unfolding base64_table
digit_at index padding ch =
    if ch == b'='
    then (if ltb index 2 || padding + 1 == 1 && not (index == 3)
        then none
        else some (0, padding + 1))
    else if not (padding == 0)
    then none
    else (do digit ← find ch base64_table; some (digit, padding))

-- The bytes of a group.
abbrev pub group_bytes : ℕ → ℕ → List ℕ
group_bytes combined padding =
    (combined / 2 ^ 16 % 2 ^ 8)
    ∷ ((if ltb padding 2 then (combined / 2 ^ 8 % 2 ^ 8) ∷ [] else [])
        ++ (if padding == 0 then (combined % 2 ^ 8) ∷ [] else []))

pub decode_groups : Text → Option (List ℕ)
unfolding digit_at
decode_groups [] = some []
decode_groups (w ∷ x ∷ y ∷ z ∷ rest) =
    let others = decode_groups rest in
    do
      (i, padding) ← digit_at 0 0 w
      (j, padding) ← digit_at 1 padding x
      (k, padding) ← digit_at 2 padding y
      (l, padding) ← digit_at 3 padding z
      require (padding == 0 || is_empty rest)
      decoded ← others
      some (group_bytes (i * 2 ^ 18 + j * 2 ^ 12 + k * 2 ^ 6 + l) padding ++ decoded)
decode_groups _ = none

unfoldable pub decode_base64 : Text → Option (List ℕ)
unfolding decode_groups
decode_base64 value =
    if is_empty value || not (length value % 4 == 0) then none else decode_groups value

-- The text behind its first characters that pass the test, and those characters.
abbrev pub skip : (ℕ → Bool) → Text → Text
skip test [] = []
skip test (ch ∷ rest) = if test ch then skip test rest else ch ∷ rest

abbrev pub span : (ℕ → Bool) → Text → Text
span test [] = []
span test (ch ∷ rest) = if test ch then ch ∷ span test rest else []

-- The text in quotes, behind the first, and what follows the last.
pub quoted : Text → Option (Text × Text)
quoted [] = none
quoted (ch ∷ []) = if ch == b'"' then some ([], []) else none
quoted (ch ∷ c ∷ rest) =
    let escaped = quoted rest in
    let plain = quoted (c ∷ rest) in
    if ch == b'"'
    then some ([], c ∷ rest)
    else if ch == 92
    then (do (text, left) ← escaped; some (c ∷ text, left))
    else (do (text, left) ← plain; some (ch ∷ text, left))

-- A value that is not in quotes, up to the comma, without the blanks at its end.
pub unquoted : Text → Option (Text × Text)
unfolding trim_back
unquoted text =
    let value = trim_back (span (λ ch. not (ch == b',')) text) in
    if is_empty value then none else some (value, skip (λ ch. not (ch == b',')) text)

abbrev pub Parameters : Type 0
Parameters = List (Text × Text)

abbrev pub parameter : Text → Parameters → Option Text
parameter name [] = none
parameter name ((key, value) ∷ rest) = if text_eq key name then some value else parameter name rest

abbrev pub absent : Option Text → Bool
absent none = true
absent (some _) = false

-- The value behind an equals sign, and the text behind that.
pub value_of : Text → Option (Text × Text)
unfolding quoted unquoted
value_of text =
    let value = skip is_blank text in
    if get_or value 0 0 == b'"' then quoted (drop 1 value) else unquoted value

-- Behind a value comes a comma or the end.
pub close_parameter : Text → Option (Text × Text) → Option ((Text × Text) × Text)
close_parameter key parsed = do
  (parsed_value, left) ← parsed
  let rest = skip is_blank left
  require (is_empty rest || get_or rest 0 0 == b',')
  some ((map lower key, parsed_value), rest)

-- A parameter from its key on, and the text behind it.
pub one_parameter : Text → Option ((Text × Text) × Text)
unfolding value_of close_parameter
one_parameter text = do
  let in_key = λ (ch : ℕ). not (ch == b'=' || ch == b',' || is_blank ch)
  let key = span in_key text
  require (not (is_empty key))
  let behind = skip is_blank (skip in_key text)
  require (get_or behind 0 0 == b'=')
  close_parameter key (value_of (drop 1 behind))

-- Each round takes a key, so as many rounds as there are characters are enough.
pub parameters_from : ℕ → Text → Parameters → Option Parameters
unfolding one_parameter
parameters_from zero text parameters = none
parameters_from (suc fuel) text parameters =
    let start = skip (λ ch. is_blank ch || ch == b',') text in
    if is_empty start then some parameters else elim (one_parameter start) [
      | none ↦ none
      | some ((key, value), rest) ↦
          if absent (parameter key parameters)
          then parameters_from fuel rest (parameters ++ (key, value) ∷ [])
          else none
    ]

unfoldable pub parse_digest_parameters : Text → Option Parameters
unfolding parameters_from
parse_digest_parameters value = parameters_from (suc (length value)) value []

unfoldable pub is_hex_value : Text → Bool
is_hex_value value = not (is_empty value) && all_of is_hex_digit value

abbrev pub hex_digit : ℕ → ℕ
hex_digit ch =
    if leb b'0' ch && leb ch b'9'
    then ch - b'0'
    else if leb b'a' ch && leb ch b'f'
    then ch - b'a' + 10
    else ch - b'A' + 10

abbrev pub hex_digits : Text → ℕ → ℕ
hex_digits [] result = result
hex_digits (ch ∷ rest) result = hex_digits rest ((result * 16 % 2 ^ 32 + hex_digit ch) % 2 ^ 32)

unfoldable pub parse_hex32 : Text → Option ℕ
unfolding is_hex_value
parse_hex32 value =
    if is_empty value || ltb 8 (length value) || not (is_hex_value value)
    then none
    else some (hex_digits value 0)

pub data RtspAuthMode : Type 0 where
  no_auth : RtspAuthMode
  basic : RtspAuthMode
  digest : RtspAuthMode

-- The options that logins read.
pub record AuthOptions : Type 0 where
  pub auth_mode : RtspAuthMode
  pub auth_username : Text
  pub auth_password : Text
  pub auth_realm : Text
  pub auth_nonce_ttl_ms : ℤ

-- The session's nonce, empty before the first, when it was made, and the last count used with it.
pub record AuthState : Type 0 where
  pub auth_nonce : Text
  pub auth_nonce_created_at : ℕ
  pub digest_nonce_count : ℕ

-- What is left to check of the parameters of a Digest header.
pub record DigestResponse : Type 0 where
  pub nonce : Text
  pub qop : Text
  pub nc : Text
  pub cnonce : Text
  pub response : Text

-- The parameters that must be there and be right whatever the nonce is.
pub digest_response : AuthOptions → RtspRequest → Parameters → Option DigestResponse
digest_response o request parameters = do
  username ← parameter (codes "username") parameters
  realm ← parameter (codes "realm") parameters
  nonce ← parameter (codes "nonce") parameters
  uri ← parameter (codes "uri") parameters
  response ← parameter (codes "response") parameters
  qop ← parameter (codes "qop") parameters
  nc ← parameter (codes "nc") parameters
  cnonce ← parameter (codes "cnonce") parameters
  require (elim (parameter (codes "algorithm") parameters) [
    | none ↦ true
    | some algorithm ↦ ascii_equals_ignore_case algorithm (codes "MD5")
  ])
  require
      (text_eq username o.auth_username && text_eq realm o.auth_realm && text_eq uri request.uri)
  require (ascii_equals_ignore_case qop (codes "auth"))
  require (length nc == 8 && is_hex_value nc && not (is_empty cnonce))
  require (length response == 32 && is_hex_value response)
  some (record { nonce = nonce; qop = qop; nc = nc; cnonce = cnonce; response = response })

-- The header behind the name of its scheme.
pub scheme_parameters : Text → Text → Option Text
scheme_parameters scheme header = do
  separator ← find b' ' header
  require (ascii_equals_ignore_case (take separator header) scheme)
  some (drop (separator + 1) header)

pub read_digest : AuthOptions → RtspRequest → Text → Option DigestResponse
unfolding scheme_parameters parse_digest_parameters digest_response
read_digest o request authorization = do
  rest ← scheme_parameters (codes "Digest") authorization
  parameters ← parse_digest_parameters rest
  digest_response o request parameters

-- Older than the time to live.
abbrev pub expired : AuthOptions → ℕ → AuthState → Bool
expired o now s =
    not (ltb_ℤ (pos now -ℤ pos s.auth_nonce_created_at) (o.auth_nonce_ttl_ms *ℤ pos 1000000))

abbrev colon : Text → Text → Text
colon a b = a ++ (b':' ∷ b)

module _ (md5_hex : Text → Text) (o : AuthOptions) where
  abbrev pub expected_response : RtspRequest → DigestResponse → Text
  expected_response request d =
      let ha1 = md5_hex (colon o.auth_username (colon o.auth_realm o.auth_password)) in
      let ha2 = md5_hex (colon request.method request.uri) in
      md5_hex (colon ha1 (colon d.nonce (colon d.nc (colon d.cnonce (colon d.qop ha2)))))

  -- Whether the login is right, whether it is only the nonce that is too old, and the next state: at a
  -- nonce that is in use, with the count that the client sent and whether its response is right.
  pub check_count : Bool → Option ℕ → AuthState → Bool × Bool × AuthState
  check_count right none s = (false, false, s)
  check_count right (some count) s =
      if leb count s.digest_nonce_count || not right
      then (false, false, s)
      else (true, false, record s { digest_nonce_count = count })

  pub check_response : ℕ → RtspRequest → DigestResponse → AuthState → Bool × Bool × AuthState
  unfolding parse_hex32 constant_time_equals check_count
  check_response now request d s =
      let known = not (is_empty s.auth_nonce) && text_eq d.nonce s.auth_nonce in
      if not known || expired o now s
      then (false, known, s)
      else check_count (constant_time_equals (expected_response request d) d.response)
          (parse_hex32 d.nc) s

  pub check_header : ℕ → RtspRequest → Option DigestResponse → AuthState → Bool × Bool × AuthState
  unfolding check_response
  check_header now request none s = (false, false, s)
  check_header now request (some d) s = check_response now request d s

  unfoldable pub validate_digest_authorization :
      ℕ → RtspRequest → Text → AuthState → Bool × Bool × AuthState
  unfolding check_header read_digest
  validate_digest_authorization now request authorization s =
      check_header now request (read_digest o request authorization) s

  -- EnsureDigestNonce, with the nonce that MakeNonce would give.
  unfoldable pub ensure_digest_nonce : ℕ → Text → AuthState → AuthState
  ensure_digest_nonce now fresh s =
      if is_empty s.auth_nonce || expired o now s
      then record { auth_nonce = fresh; auth_nonce_created_at = now; digest_nonce_count = 0 }
      else s

  -- The user and the password of a Basic header against those of the options.
  pub right_password : Option Text → Bool
  unfolding constant_time_equals
  right_password none = false
  right_password (some decoded) = elim (find b':' decoded) [
    | none ↦ false
    | some separator ↦
        constant_time_equals (take separator decoded) o.auth_username
        && constant_time_equals (drop (separator + 1) decoded) o.auth_password
  ]

  unfoldable pub basic_authorized : Text → Bool
  unfolding right_password decode_base64 scheme_parameters
  basic_authorized header = elim (scheme_parameters (codes "Basic") header) [
    | none ↦ false
    | some credentials ↦ right_password (decode_base64 credentials)
  ]

  -- AuthenticateRequest as far as its verdict; one Authorization header must be there.
  pub check_authorization :
      RtspAuthMode → ℕ → RtspRequest → List Text → AuthState → Bool × Bool × AuthState
  unfolding basic_authorized validate_digest_authorization
  check_authorization no_auth now request headers s = (true, false, s)
  check_authorization basic now request (header ∷ []) s = (basic_authorized header, false, s)
  check_authorization digest now request (header ∷ []) s =
      validate_digest_authorization now request header s
  check_authorization mode now request headers s = (false, false, s)

  -- SendUnauthorized: the challenge that goes out.
  pub challenge : RtspAuthMode → Bool → Text → Text
  challenge basic stale nonce = codes "Basic realm=\"" ++ (o.auth_realm ++ codes "\"")
  challenge mode stale nonce =
      codes "Digest realm=\""
      ++ (o.auth_realm
          ++ (codes "\", nonce=\""
              ++ (nonce
                  ++ (codes "\", algorithm=MD5, qop=\"auth\""
                      ++ (if stale then codes ", stale=true" else [])))))

  pub make_challenge : RtspAuthMode → ℕ → Text → AuthState → AuthState
  unfolding ensure_digest_nonce
  make_challenge basic now fresh s = s
  make_challenge mode now fresh s = ensure_digest_nonce now fresh s

  -- AuthenticateRequest: nothing if the login is right, or the challenge that goes out with whether the
  -- connection is closed behind it, and the next state. What RecordAuthFailure answers is an argument.
  unfoldable pub authenticate_request :
      ℕ → Text → Bool → RtspRequest → AuthState → Option (Text × Bool) × AuthState
  unfolding check_authorization challenge make_challenge
  authenticate_request now fresh may_continue request s =
      let (authorized, stale, s') =
        check_authorization o.auth_mode now request
          (header_values request.headers (codes "Authorization")) s in
      let s'' = make_challenge o.auth_mode now fresh s' in
      if authorized
      then (none, s')
      else (some (challenge o.auth_mode stale s''.auth_nonce, not may_continue), s'')
