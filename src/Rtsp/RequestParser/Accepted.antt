-- ===== src/Rtsp/RequestParser/Accepted.antt =====
-- RtspRequestParser: the requests that it accepts.
use video_pipeline.Base.{
  ℕ, suc, ◌+◌, ◌-◌, ◌≤◌, ◌<◌, ◌^◌, ◌≡◌, refl, ap, sym, subst, ◌∙◌, inl, inr, Bool, true, false, not,
  ◌&&◌, ◌||◌, List, [], ◌∷◌, Option, none, some, arith, ltb, leb, ◌==◌, length, length-take, take,
  drop, Bool-cases,
}
use video_pipeline.Media.Wire.{All}
use video_pipeline.Media.Bitstream.{is_empty}
use video_pipeline.Rtsp.Lexical.{
  codes, all_of, is_token_character, find, is_absolute_uri, parse_unsigned, LineStatus, complete,
  need_more_data, error, find_line_end, partial_line_length,
}
use video_pipeline.Rtsp.Lexical.Numbers.{parse_unsigned_lem, decimal}
use video_pipeline.Rtsp.RequestParser.{
  RtspHeader, RtspRequest, RtspRequestParseResult, Limits, HeaderScan, headers_complete, stopped,
  need_more, parsed, failed, header_values, content_length, with_content_length, finish, conclude,
  with_request, first_line, parse_version, parse_request_line, parse,
}
use video_pipeline.Rtsp.Lexical.{◌>>=◌, ◌>>◌, require}
use video_pipeline.Rtsp.RequestParser.Clean.{
  IsToken, IsClean, CleanScan, parse_headers-Clean, taken-some,
}

bind-some :
    {A B : Type 0} (m : Option A) (f : A → Option B) {b : B}
    → (m >>= f) ≡ some b
    → (a : A) × (m ≡ some a) × (f a ≡ some b)
bind-some none f e = absurd (ground (arith, e))
bind-some (some a) f e = (a, refl, e)

then-some :
    {B : Type 0} (test : Bool) (k : Option B) {b : B}
    → (require test >> k) ≡ some b
    → (test ≡ true) × (k ≡ some b)
then-some true k e = (refl, e)
then-some false k e = absurd (ground (arith, e))

none-first :
    {A : Type 0} (o : Option ℕ) (m : Option A) {r : A}
    → elim o [ some _ ↦ none | none ↦ m ] ≡ some r
    → m ≡ some r
none-first none m e = e
none-first (some x) m e = absurd (ground (arith, e))

some-injective : {A : Type 0} {a b : A} → some a ≡ some b → a ≡ b
some-injective {a} e = ap (λ o. elim o [ none ↦ a | some x ↦ x ]) e

abbrev IsGoodLine : RtspRequest → Type 0
IsGoodLine r = IsToken r.method × (is_absolute_uri r.uri ≡ true)

parse_request_line-Good :
    (line : List ℕ) {r : RtspRequest} → parse_request_line line ≡ some r → IsGoodLine r
unfolding parse_request_line
parse_request_line-Good line h =
    let (i, ei, h1) = bind-some (find 32 line) _ h in
    let after = drop (i + 1) line in
    let (j, ej, h2) = bind-some (find 32 after) _ h1 in
    let version = drop (j + 1) after in
    let (nonzero, h3) = then-some (not (i == 0 || j == 0 || is_empty version)) _ h2 in
    let h4 = none-first (find 32 version) _ h3 in
    let (good, h5) =
      then-some (all_of is_token_character (take i line) && is_absolute_uri (take j after)) _ h4 in
    let (v, ev, h6) = bind-some (parse_version version) _ h5 in
    subst IsGoodLine (some-injective h6) (
      (taken-some 32 line i ei (ground (arith, nonzero)), ground (arith, good)),
      ground (arith, good),
    )

unsigned-bounded :
    (v : List ℕ) (maximum n : ℕ)
    → maximum < 2 ^ 64
    → parse_unsigned v maximum ≡ some n
    → n ≤ maximum
unsigned-bounded v maximum n small e =
    let exact = sym (parse_unsigned_lem v maximum small) ∙ e in
    elim (Bool-cases (leb (decimal 0 v) maximum)) [
      | inl fits ↦ ground (arith, exact, fits)
      | inr over ↦ absurd (ground (arith, exact, over))
    ]

-- No value of Content-Length is above the limit.
content_length-bounded :
    (limits : Limits) (values : List (List ℕ)) (known : Option ℕ) {n : ℕ}
    → limits.max_body_bytes < 2 ^ 64
    → ((m : ℕ) → known ≡ some m → m ≤ limits.max_body_bytes)
    → content_length limits values known ≡ some n
    → n ≤ limits.max_body_bytes
unfolding content_length
content_length-bounded limits [] none small h e =
    subst (λ x. x ≤ limits.max_body_bytes) (some-injective e) (omega arith)
content_length-bounded limits [] (some m) small h e = h _ e
content_length-bounded limits (v ∷ vs) known small h e =
    let (current, ec, e1) = bind-some (parse_unsigned v limits.max_body_bytes) _ e in
    let (same, e2) =
      then-some (elim known [ none ↦ true | some n' ↦ current == n' ])
        (content_length limits vs (some current)) e1 in
    content_length-bounded limits vs (some current) small
      (λ m em.
        subst (λ x. x ≤ limits.max_body_bytes) (some-injective em)
          (unsigned-bounded v limits.max_body_bytes current small ec))
      e2

-- What a caller may rely on in a request.
pub record Accepted (limits : Limits) (request : RtspRequest) : Type 0 where
  pub method : IsToken request.method
  pub uri : is_absolute_uri request.uri ≡ true
  pub headers : All IsClean request.headers
  pub body : length request.body ≤ limits.max_body_bytes

AcceptedResult : Limits → RtspRequestParseResult → Type 0
AcceptedResult limits (parsed n request) = Accepted limits request
AcceptedResult limits _ = Unit

sized-Accepted :
    (limits : Limits) (header_begin : ℕ) (request : RtspRequest) (headers : List RtspHeader)
    (position : ℕ) (rest : List ℕ) (o : Option ℕ)
    → IsGoodLine request
    → All IsClean headers
    → ((n : ℕ) → o ≡ some n → n ≤ limits.max_body_bytes)
    → AcceptedResult limits (with_content_length header_begin request headers position rest o)
unfolding with_content_length AcceptedResult
sized-Accepted limits header_begin request headers position rest none good clean h = tt
sized-Accepted limits header_begin request headers position rest (some size) (method, uri) clean h =
    elim (Bool-cases (ltb (length rest) size)) [
      | inl e ↦ rw e tt
      | inr e ↦ rw e (record {
        method = method;
        uri = uri;
        headers = clean;
        body = omega (arith, length-take size rest, h size refl);
      })
    ]

finish-Accepted :
    (limits : Limits) (header_begin : ℕ) (request : RtspRequest) (headers : List RtspHeader)
    (position : ℕ) (rest : List ℕ)
    → limits.max_body_bytes < 2 ^ 64
    → IsGoodLine request
    → All IsClean headers
    → AcceptedResult limits (finish limits header_begin request headers position rest)
unfolding finish AcceptedResult
finish-Accepted limits header_begin request headers position rest small (method, uri) clean =
    let size = content_length limits (header_values headers (codes "Content-Length")) none in
    elim (Bool-cases (ltb limits.max_header_bytes (position - header_begin))) [
      | inl e ↦ rw e tt
      | inr e ↦ rw e (
          sized-Accepted limits header_begin request headers position rest size (method, uri) clean
            λ n s. content_length-bounded limits _ none small (λ m k. absurd (ground (arith, k))) s)
    ]

conclude-Accepted :
    (limits : Limits) (header_begin : ℕ) (request : RtspRequest) (s : HeaderScan)
    → limits.max_body_bytes < 2 ^ 64
    → IsGoodLine request
    → CleanScan s
    → AcceptedResult limits (conclude limits header_begin request s)
unfolding conclude AcceptedResult
conclude-Accepted limits header_begin request (stopped need_more) small good clean = tt
conclude-Accepted limits header_begin request (stopped (failed k)) small good clean = tt
conclude-Accepted limits header_begin request (stopped (parsed n r)) small good clean = absurd clean
conclude-Accepted limits header_begin request (headers_complete headers position rest) small good
      clean =
    finish-Accepted limits header_begin request headers position rest small good clean

with_request-Accepted :
    (limits : Limits) (header_begin : ℕ) (o : Option RtspRequest) (rest : List ℕ)
    → limits.max_body_bytes < 2 ^ 64
    → ((r : RtspRequest) → o ≡ some r → IsGoodLine r)
    → AcceptedResult limits (with_request limits header_begin o rest)
unfolding with_request
with_request-Accepted limits header_begin none rest small good = unfold AcceptedResult in tt
with_request-Accepted limits header_begin (some request) rest small good =
    conclude-Accepted limits header_begin request _ small (good request refl)
      (parse_headers-Clean (suc (length rest)) limits header_begin header_begin rest [] tt)

first_line-Accepted :
    (limits : Limits) (input : List ℕ) (s : LineStatus)
    → limits.max_body_bytes < 2 ^ 64
    → AcceptedResult limits (first_line limits input s)
unfolding first_line AcceptedResult
first_line-Accepted limits input (error k) small = tt
first_line-Accepted limits input need_more_data small =
    elim (Bool-cases (ltb limits.max_request_line_bytes (partial_line_length input))) [
      | inl e ↦ rw e tt
      | inr e ↦ rw e tt
    ]
first_line-Accepted limits input (complete k) small =
    elim (Bool-cases (ltb limits.max_request_line_bytes k)) [
      | inl e ↦ rw e tt
      | inr e ↦ rw e (
          with_request-Accepted limits (k + 2) (parse_request_line (take k input))
            (drop (k + 2) input) small (λ r. parse_request_line-Good (take k input)))
    ]

-- In every request that Parse accepts, with a body limit below 2^64, the method is a token, the URI is an absolute URI or a star, every
-- header has a token for its name and a value without line ends or other control characters but TAB,
-- and the body is within the limit.
pub parse-Accepted :
    (limits : Limits) (input : List ℕ) {n : ℕ} {request : RtspRequest}
    → limits.max_body_bytes < 2 ^ 64
    → parse limits input ≡ parsed n request
    → Accepted limits request
unfolding parse AcceptedResult
parse-Accepted limits input small e =
    subst (AcceptedResult limits) e (first_line-Accepted limits input (find_line_end input) small)
