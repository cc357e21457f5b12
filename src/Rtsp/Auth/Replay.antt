-- ===== src/Rtsp/Auth/Replay.antt =====
-- Digest logins: a header that was accepted is not accepted again.
use video_pipeline.Base.{
  ℕ, ◌≤◌, ◌≡◌, ◌≢◌, ◌⊎◌, refl, ap, sym, subst, ◌∙◌, inl, inr, Bool, true, false, not, ◌&&◌, ◌||◌,
  List, [], ◌∷◌, Option, none, some, arith, leb, Bool-cases,
}
use video_pipeline.Base.Text.{Text, text_eq, text_eq→eq}
use video_pipeline.Media.Bitstream.{is_empty}
use video_pipeline.Rtsp.RequestParser.{RtspRequest, header_values}
use video_pipeline.Rtsp.Lexical.{codes}
use video_pipeline.Rtsp.Auth.{
  AuthOptions, AuthState, RtspAuthMode, no_auth, basic, digest, check_count, DigestResponse,
  expired, constant_time_equals, parse_hex32, read_digest, expected_response, check_response,
  check_header, validate_digest_authorization, authenticate_request, check_authorization,
  make_challenge, ensure_digest_nonce,
}

-- What a session does about logins: a request that comes in at a time, with the text that a fresh nonce
-- would have and the answer that RecordAuthFailure would give.
pub record Attempt : Type 0 where
  pub now : ℕ
  pub fresh : Text
  pub may_continue : Bool
  pub request : RtspRequest

-- The nonce was used up to a count, or has been replaced.
abbrev Used : Text → ℕ → AuthState → Type 0
Used nonce count s = s.auth_nonce ≡ nonce → count ≤ s.digest_nonce_count

module _ (md5_hex : Text → Text) (o : AuthOptions) where
  pub run : List Attempt → AuthState → AuthState
  run [] s = s
  run (a ∷ attempts) s =
      run attempts (authenticate_request md5_hex o a.now a.fresh a.may_continue a.request s).1

  -- The nonce stays, and its count does not fall.
  abbrev Later : AuthState → AuthState → Type 0
  Later s t = (t.auth_nonce ≡ s.auth_nonce) × (s.digest_nonce_count ≤ t.digest_nonce_count)

  Later-Used :
      (nonce : Text) (count : ℕ) (s t : AuthState)
      → Later s t
      → Used nonce count s
      → Used nonce count t
  Later-Used nonce count s t (same, more) u e = omega (arith, u (sym same ∙ e))

  check_count-Later :
      (right : Bool) (count : Option ℕ) (s : AuthState)
      → Later s (check_count md5_hex o right count s).2
  unfolding check_count
  check_count-Later right none s = (refl, omega arith)
  check_count-Later right (some count) s =
      elim (Bool-cases (leb count s.digest_nonce_count || not right)) [
        | inl e ↦ rw e (refl, omega arith)
        | inr e ↦ rw e (refl, ground arith)
      ]

  -- The test of the nonce.
  abbrev passes : ℕ → DigestResponse → AuthState → Bool
  passes now d s =
      not (not (is_empty s.auth_nonce) && text_eq d.nonce s.auth_nonce) || expired o now s

  check_header-Later :
      (now : ℕ) (request : RtspRequest) (r : Option DigestResponse) (s : AuthState)
      → Later s (check_header md5_hex o now request r s).2
  unfolding check_header check_response
  check_header-Later now request none s = (refl, omega arith)
  check_header-Later now request (some d) s = elim (Bool-cases (passes now d s)) [
    | inl e ↦ rw e (refl, omega arith)
    | inr e ↦ rw e (check_count-Later _ (parse_hex32 d.nc) s)
  ]

  check_authorization-Later :
      (mode : RtspAuthMode) (now : ℕ) (request : RtspRequest) (headers : List Text) (s : AuthState)
      → Later s (check_authorization md5_hex o mode now request headers s).2
  unfolding check_authorization validate_digest_authorization
  check_authorization-Later no_auth now request headers s = (refl, omega arith)
  check_authorization-Later basic now request [] s = (refl, omega arith)
  check_authorization-Later basic now request (h ∷ []) s = (refl, omega arith)
  check_authorization-Later basic now request (h ∷ h' ∷ hs) s = (refl, omega arith)
  check_authorization-Later digest now request [] s = (refl, omega arith)
  check_authorization-Later digest now request (h ∷ []) s =
      check_header-Later now request (read_digest o request h) s
  check_authorization-Later digest now request (h ∷ h' ∷ hs) s = (refl, omega arith)

  ensure_digest_nonce-Used :
      (now : ℕ) (fresh nonce : Text) (count : ℕ) (s : AuthState)
      → fresh ≢ nonce
      → Used nonce count s
      → Used nonce count (ensure_digest_nonce md5_hex o now fresh s)
  unfolding ensure_digest_nonce
  ensure_digest_nonce-Used now fresh nonce count s new u =
      elim (Bool-cases (is_empty s.auth_nonce || expired o now s)) [
        | inl e ↦ rw e (λ same. absurd (new same))
        | inr e ↦ rw e u
      ]

  make_challenge-Used :
      (mode : RtspAuthMode) (now : ℕ) (fresh nonce : Text) (count : ℕ) (s : AuthState)
      → fresh ≢ nonce
      → Used nonce count s
      → Used nonce count (make_challenge md5_hex o mode now fresh s)
  unfolding make_challenge
  make_challenge-Used no_auth now fresh nonce count s new u =
      ensure_digest_nonce-Used now fresh nonce count s new u
  make_challenge-Used basic now fresh nonce count s new u = u
  make_challenge-Used digest now fresh nonce count s new u =
      ensure_digest_nonce-Used now fresh nonce count s new u

  -- What a request does to the nonce.
  authenticate_request-Used :
      (now : ℕ) (fresh : Text) (may_continue : Bool) (request : RtspRequest) (nonce : Text)
      (count : ℕ) (s : AuthState)
      → fresh ≢ nonce
      → Used nonce count s
      → Used nonce count (authenticate_request md5_hex o now fresh may_continue request s).1
  unfolding authenticate_request
  authenticate_request-Used now fresh may_continue request nonce count s new u =
      let headers = header_values request.headers (codes "Authorization") in
      let checked = check_authorization md5_hex o o.auth_mode now request headers s in
      let later =
        Later-Used nonce count s checked.2
          (check_authorization-Later o.auth_mode now request headers s) u in
      elim (Bool-cases checked.0) [
        | inl e ↦ rw e later
        | inr e ↦ rw e (make_challenge-Used o.auth_mode now fresh nonce count checked.2 new later)
      ]

  -- None of the fresh nonces is this one.
  abbrev pub Fresh : Text → List Attempt → Type 0
  Fresh nonce [] = Unit
  Fresh nonce (a ∷ attempts) = (a.fresh ≢ nonce) × Fresh nonce attempts

  run-Used :
      (attempts : List Attempt) (nonce : Text) (count : ℕ) (s : AuthState)
      → Fresh nonce attempts
      → Used nonce count s
      → Used nonce count (run attempts s)
  unfolding run
  run-Used [] nonce count s f u = u
  run-Used (a ∷ attempts) nonce count s (new, f) u =
      run-Used attempts nonce count _ f
        (authenticate_request-Used a.now a.fresh a.may_continue a.request nonce count s new u)

  -- A login that was accepted has used its count up: the verdict on it is no from then on.
  record Spent (verdict : ℕ → AuthState → Bool) (nonce : Text) (s : AuthState) : Type 0 where
    count : ℕ
    used : Used nonce count s
    refused : (now : ℕ) (t : AuthState) → Used nonce count t → verdict now t ≡ false

  used_count :
      (right : Bool) (count : Option ℕ) (s : AuthState)
      → (check_count md5_hex o right count s).0 ≡ true
      → (n : ℕ) × (count ≡ some n)
        × (n ≤ (check_count md5_hex o right count s).2.digest_nonce_count)
  unfolding check_count
  used_count right none s h = absurd (cc)
  used_count right (some n) s h = elim (Bool-cases (leb n s.digest_nonce_count || not right)) [
    | inl e ↦ let bad : false ≡ true = rw e at h in absurd (cc)
    | inr e ↦ (n, refl, rw e (omega arith))
  ]

  low_count :
      (right : Bool) (count : Option ℕ) (n : ℕ) (s : AuthState)
      → count ≡ some n
      → n ≤ s.digest_nonce_count
      → (check_count md5_hex o right count s).0 ≡ false
  unfolding check_count
  low_count right count n s e h =
      subst (λ c. (check_count md5_hex o right c s).0 ≡ false) (sym e) (ground arith)

  passes-false :
      (now : ℕ) (d : DigestResponse) (s : AuthState)
      → passes now d s ≡ false
      → d.nonce ≡ s.auth_nonce
  passes-false now d s e = text_eq→eq d.nonce s.auth_nonce (ground arith)

  check_response-spends :
      (now : ℕ) (request : RtspRequest) (d : DigestResponse) (s : AuthState)
      → (check_response md5_hex o now request d s).0 ≡ true
      → Spent
          (λ now t. (check_response md5_hex o now request d t).0)
          s.auth_nonce
          (check_response md5_hex o now request d s).2
  unfolding check_response
  check_response-spends now request d s h = elim (Bool-cases (passes now d s)) [
    | inl e ↦ let bad : false ≡ true = rw e at h in absurd (cc)
    | inr e ↦
        let right = constant_time_equals (expected_response md5_hex o request d) d.response in
        let accepted : (check_count md5_hex o right (parse_hex32 d.nc) s).0 ≡ true = rw e at h in
        let (n, is_n, below) = used_count right (parse_hex32 d.nc) s accepted in
        record {
          count = n;
          used = λ _. rw e below;
          refused = λ now' t u. elim (Bool-cases (passes now' d t)) [
            | inl f ↦ rw f refl
            | inr f ↦ rw f (
                low_count right (parse_hex32 d.nc) n t is_n
                  (u (sym (passes-false now' d t f) ∙ passes-false now d s e)))
          ];
        }
  ]

  check_header-spends :
      (now : ℕ) (request : RtspRequest) (r : Option DigestResponse) (s : AuthState)
      → (check_header md5_hex o now request r s).0 ≡ true
      → Spent
          (λ now t. (check_header md5_hex o now request r t).0)
          s.auth_nonce
          (check_header md5_hex o now request r s).2
  unfolding check_header
  check_header-spends now request none s h = absurd (cc)
  check_header-spends now request (some d) s h = check_response-spends now request d s h

  check_authorization-spends :
      (now : ℕ) (request : RtspRequest) (headers : List Text) (s : AuthState)
      → (check_authorization md5_hex o digest now request headers s).0 ≡ true
      → Spent
          (λ now t. (check_authorization md5_hex o digest now request headers t).0)
          s.auth_nonce
          (check_authorization md5_hex o digest now request headers s).2
  unfolding check_authorization validate_digest_authorization
  check_authorization-spends now request [] s h = absurd (cc)
  check_authorization-spends now request (a ∷ b ∷ hs) s h = absurd (cc)
  check_authorization-spends now request (header ∷ []) s h =
      check_header-spends now request (read_digest o request header) s h

  authorization_headers : RtspRequest → List Text
  authorization_headers request = header_values request.headers (codes "Authorization")

  -- The verdict of AuthenticateRequest.
  authenticate_request-verdict :
      (mode : RtspAuthMode) (now : ℕ) (fresh : Text) (may_continue : Bool) (request : RtspRequest)
      (s : AuthState)
      → o.auth_mode ≡ mode
      → let checked =
          check_authorization md5_hex o mode now request (authorization_headers request) s in
        let result = authenticate_request md5_hex o now fresh may_continue request s in
        ((checked.0 ≡ true) × (result.1 ≡ checked.2)) ⊎ ((checked.0 ≡ false) × (result.0 ≢ none))
  unfolding authenticate_request authorization_headers
  authenticate_request-verdict mode now fresh may_continue request s e =
      let headers = header_values request.headers (codes "Authorization") in
      let same = ap (λ m. check_authorization md5_hex o m now request headers s) e in
      elim (Bool-cases (check_authorization md5_hex o o.auth_mode now request headers s).0) [
        | inl yes_ ↦ inl (ap (λ c. c.0) (sym same) ∙ yes_, rw yes_ (ap (λ c. c.2) same))
        | inr no_ ↦ inr (ap (λ c. c.0) (sym same) ∙ no_, rw no_ (λ z. cc))
      ]

  -- With Digest logins, a request that is accepted is refused if it comes again at any time, whatever other
  -- requests come between, as long as no fresh nonce is the one it was accepted with.
  pub authenticate_request_once :
      (now : ℕ) (fresh : Text) (may_continue : Bool) (request : RtspRequest) (s : AuthState)
      → o.auth_mode ≡ digest
      → (authenticate_request md5_hex o now fresh may_continue request s).0 ≡ none
      → (attempts : List Attempt) → Fresh s.auth_nonce attempts
      → (now' : ℕ) (fresh' : Text) (may_continue' : Bool)
      → let t = run attempts (authenticate_request md5_hex o now fresh may_continue request s).1 in
        (authenticate_request md5_hex o now' fresh' may_continue' request t).0 ≢ none
  authenticate_request_once now fresh may_continue request s e accepted attempts new now' fresh'
        may_continue' =
      elim (authenticate_request-verdict digest now fresh may_continue request s e) [
        | inr (_, refused) ↦ absurd (refused accepted)
        | inl (right, state) ↦
            let spent =
              check_authorization-spends now request (authorization_headers request) s right in
            let used =
              run-Used attempts s.auth_nonce spent.count _ new
                (subst (Used s.auth_nonce spent.count) (sym state) spent.used) in
            let t =
              run attempts (authenticate_request md5_hex o now fresh may_continue request s).1 in
            elim (authenticate_request-verdict digest now' fresh' may_continue' request t e) [
              | inl (yes_, _) ↦
                  let bad : false ≡ true = sym (spent.refused now' t used) ∙ yes_ in absurd (cc)
              | inr (_, refused) ↦ refused
            ]
      ]
