-- ===== src/Rtsp/Sessions/Windows.antt =====
-- RtspSessionManager: how many failed logins a client has within one window.
use video_pipeline.Base.{
  ℕ, ◌+◌, ◌^◌, ◌<◌, ◌≡◌, ◌≢◌, refl, ap, ap₂, sym, ◌∙◌, Bool, true, List, [], ◌∷◌, arith, ltb, ◌==◌,
  length, inl, inr, Bool-cases, ==_iff,
}
use video_pipeline.Base.Int.{pos, ◌-ℤ◌, ◌*ℤ◌, ltb_ℤ}
use video_pipeline.Base.Text.{Text, text_eq_self}
use video_pipeline.Rtsp.Sessions.{
  RtspServerOptions, AddressState, Manager, next, state_of, reached, reset_address_window,
  record_auth_failure,
}

-- Whether the client may go on after each of its failures, at these times.
pub fail_all : RtspServerOptions → Text → Manager → List ℕ → List Bool
unfolding record_auth_failure
fail_all o client m [] = []
fail_all o client m (now ∷ times) =
    let (may_continue, m') = record_auth_failure o now client m in
    may_continue ∷ fail_all o client m' times

-- The answers to failures when `k` were counted before.
abbrev pub answers : ℕ → ℕ → List ℕ → List Bool
answers limit k [] = []
answers limit k (now ∷ times) = ltb (k + 1) limit ∷ answers limit (k + 1) times

-- The times that lie in the window that began at `start`.
abbrev pub InWindow : RtspServerOptions → ℕ → List ℕ → Type 0
InWindow o start [] = Unit
InWindow o start (now ∷ times) =
    (ltb_ℤ (pos now -ℤ pos start) (o.rate_limit_window_ms *ℤ pos 1000000) ≡ true)
    × InWindow o start times

reset-inside :
    (o : RtspServerOptions) (now : ℕ) (state : AddressState)
    → state.window_started ≢ 0
    → ltb_ℤ (pos now -ℤ pos state.window_started) (o.rate_limit_window_ms *ℤ pos 1000000) ≡ true
    → reset_address_window o now state ≡ state
unfolding reset_address_window
reset-inside o now state some_start inside = elim (Bool-cases (state.window_started == 0)) [
  | inl e ↦ absurd (some_start ((==_iff _ _).0 e))
  | inr e ↦ rw (e, inside) refl
]

-- A window is open behind the reset.
open_window :
    (o : RtspServerOptions) (now : ℕ) (state : AddressState)
    → now ≢ 0
    → (reset_address_window o now state).window_started ≢ 0
unfolding reset_address_window
open_window o now state some_time = elim (Bool-cases (state.window_started == 0)) [
  | inl e ↦ rw e some_time
  | inr e ↦
      elim (Bool-cases
        (ltb_ℤ (pos now -ℤ pos state.window_started) (o.rate_limit_window_ms *ℤ pos 1000000))) [
          | inl f ↦ rw (e, f) (λ z. absurd (ground (arith, e, z)))
          | inr f ↦ rw (e, f) some_time
        ]
]

-- The state behind a failure.
module _ (o : RtspServerOptions) (client : Text) (limited : o.auth_failures_per_address ≢ 0) where
  fail_counts :
      (m : Manager) (now : ℕ)
      → let state = reset_address_window o now (state_of (m.address_states client)) in
        state.auth_failures + 1 < 2 ^ 64
        → ((record_auth_failure o now client m).0
            ≡ ltb (state.auth_failures + 1) o.auth_failures_per_address)
          × (state_of ((record_auth_failure o now client m).1.address_states client)
              ≡ record state { auth_failures = state.auth_failures + 1 })
  unfolding record_auth_failure
  fail_counts m now few =
      let state = reset_address_window o now (state_of (m.address_states client)) in
      let counted : next state.auth_failures ≡ state.auth_failures + 1 = omega arith in
      let own = text_eq_self client in
      elim (Bool-cases (reached o.auth_failures_per_address (next state.auth_failures))) [
        | inl e ↦ rw (e, own, counted) (ground (arith, e), refl)
        | inr e ↦ rw (e, own, counted) (ground (arith, e), refl)
      ]

  -- The failures behind the first of a window.
  fail_all-answers :
      (m : Manager) (start k : ℕ) (times : List ℕ)
      → start ≢ 0
      → (state_of (m.address_states client)).window_started ≡ start
      → (state_of (m.address_states client)).auth_failures ≡ k
      → InWindow o start times
      → k + length times < 2 ^ 64
      → fail_all o client m times ≡ answers o.auth_failures_per_address k times
  unfolding fail_all reset_address_window
  fail_all-answers m start k [] some_start w f inside few = refl
  fail_all-answers m start k (now ∷ times) some_start w f (i, inside) few =
      let state = state_of (m.address_states client) in
      let kept =
        reset-inside o now state (λ z. some_start (sym w ∙ z))
          (ap (λ (t : ℕ). ltb_ℤ (pos now -ℤ pos t) (o.rate_limit_window_ms *ℤ pos 1000000)) w
            ∙ i) in
      let failures = ap (λ t. t.auth_failures) kept in
      let (first, state') = fail_counts m now (omega (arith, failures, f)) in
      let m' = (record_auth_failure o now client m).1 in
      ap₂ ◌∷◌ (first ∙ ap (λ (n : ℕ). ltb (n + 1) o.auth_failures_per_address) (failures ∙ f)) (
        fail_all-answers m' start (k + 1) times some_start
          (ap (λ t. t.window_started) state' ∙ ap (λ t. t.window_started) kept ∙ w)
          (ap (λ t. t.auth_failures) state' ∙ ap (λ (n : ℕ). n + 1) (failures ∙ f)) inside
          (omega (arith, few)))

  -- With a limit that is not zero: whatever the manager has noted of a client, if it fails to log in at these
  -- times, the later ones within the window that is open at the first or begins there, it is told to go on
  -- exactly as long as the failures of that window, those before included, are fewer than the limit.
  pub fail_all_lem :
      (m : Manager) (start : ℕ) (times : List ℕ)
      → start ≢ 0
      → let state = reset_address_window o start (state_of (m.address_states client)) in
        InWindow o state.window_started times
        → state.auth_failures + length times + 1 < 2 ^ 64
        → fail_all o client m (start ∷ times)
          ≡ answers o.auth_failures_per_address state.auth_failures (start ∷ times)
  unfolding fail_all
  fail_all_lem m start times some_start inside few =
      let state = reset_address_window o start (state_of (m.address_states client)) in
      let (first, state') = fail_counts m start (omega (arith, few)) in
      let m' = (record_auth_failure o start client m).1 in
      ap₂ ◌∷◌ first (
        fail_all-answers m' state.window_started (state.auth_failures + 1) times
          (open_window o start (state_of (m.address_states client)) some_start)
          (ap (λ t. t.window_started) state') (ap (λ t. t.auth_failures) state') inside
          (omega (arith, few)))
