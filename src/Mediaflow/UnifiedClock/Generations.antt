-- ===== src/Mediaflow/UnifiedClock/Generations.antt =====
-- UnifiedClock: what its snapshots tell about the generation of the media time.
use video_pipeline.Base.{
  ℕ, ◌+◌, ◌%◌, ◌^◌, ◌<◌, ◌≤◌, ◌≡◌, refl, sym, ◌∙◌, inl, inr, Bool-cases, Bool, true, false, List,
  [], ◌∷◌, arith, ◌==◌, length,
}
use video_pipeline.Base.Int.{ℤ, eqb_ℤ}
use video_pipeline.Mediaflow.Timing.{no_timestamp}
use video_pipeline.Mediaflow.UnifiedClock.{
  UnifiedClock, new_clock, start, pause, resume, reset, notify_discontinuity,
  set_system_position_us, update_audio_position, snapshot,
}

-- The calls that change a clock, with the times that they read.
pub data Event : Type 0 where
  starts : ℕ → ℤ → ℕ → Event
  pauses : ℕ → ℕ → Event
  resumes : ℕ → Event
  resets jumps : ℕ → ℤ → ℕ → Event
  moves : ℤ → ℕ → Event
  hears : ℕ → ℤ → ℕ → Event

unfoldable pub apply : UnifiedClock → Event → UnifiedClock
unfolding start pause resume reset notify_discontinuity set_system_position_us update_audio_position
apply c (starts g p t) = start c g p t
apply c (pauses t u) = pause c t u
apply c (resumes t) = resume c t
apply c (resets g p t) = reset c g p t
apply c (jumps g p t) = notify_discontinuity c g p t
apply c (moves p t) = set_system_position_us c p t
apply c (hears g p t) = update_audio_position c g p t

unfoldable pub run : UnifiedClock → List Event → UnifiedClock
unfolding apply
run c [] = c
run c (e ∷ es) = run (apply c e) es

-- An audio position is only held by a clock that runs.
abbrev IsCoherent : UnifiedClock → Type 0
IsCoherent c = c.has_audio_position ≡ true → c.running ≡ true

apply-IsCoherent : (c : UnifiedClock) (e : Event) → IsCoherent c → IsCoherent (apply c e)
unfolding apply start pause resume reset notify_discontinuity set_system_position_us
    update_audio_position
apply-IsCoherent c (starts g p t) h = λ a. refl
apply-IsCoherent c (pauses t u) h = ground (arith, h)
apply-IsCoherent c (resumes t) h = ground (arith, h)
apply-IsCoherent c (resets g p t) h = λ a. ground arith
apply-IsCoherent c (jumps g p t) h = λ a. refl
apply-IsCoherent c (moves p t) h = h
apply-IsCoherent c (hears g p t) h = ground (arith, h)

run-IsCoherent : (c : UnifiedClock) (es : List Event) → IsCoherent c → IsCoherent (run c es)
unfolding run
run-IsCoherent c [] h = h
run-IsCoherent c (e ∷ es) h = run-IsCoherent (apply c e) es (apply-IsCoherent c e h)

snapshot-valid :
    (c : UnifiedClock) (prefer_audio : Bool) (now : ℕ)
    → IsCoherent c
    → (snapshot c prefer_audio now).valid ≡ c.running
unfolding snapshot
snapshot-valid c prefer_audio now h = ground (arith, h)

-- After any calls on a new clock, a snapshot is valid exactly when the clock has been started and not
-- been reset since, whichever master is preferred.
pub run-valid :
    (t : ℕ) (es : List Event) (prefer_audio : Bool) (now : ℕ)
    → (snapshot (run (new_clock t) es) prefer_audio now).valid ≡ (run (new_clock t) es).running
run-valid t es prefer_audio now =
    snapshot-valid (run (new_clock t) es) prefer_audio now
      (run-IsCoherent (new_clock t) es λ a. absurd (ground arith))

snapshot-fields :
    (c : UnifiedClock) (prefer_audio : Bool) (now : ℕ)
    → ((snapshot c prefer_audio now).discontinuity ≡ c.discontinuity)
      × ((snapshot c prefer_audio now).generation ≡ c.generation)
unfolding snapshot
snapshot-fields c prefer_audio now = ground arith

abbrev pub is_start : Event → Bool
is_start (starts g p t) = true
is_start _ = false

abbrev pub NoStart : List Event → Type 0
NoStart [] = Unit
NoStart (e ∷ es) = (is_start e ≡ false) × NoStart es

-- Either the event keeps the generation and the count of discontinuities, or it counts one.
apply-counts :
    (c : UnifiedClock) (e : Event)
    → is_start e ≡ false
    → (k : ℕ) × (k < 2)
      × ((apply c e).discontinuity % 2 ^ 64 ≡ (c.discontinuity + k) % 2 ^ 64)
      × (k ≡ 0 → (apply c e).generation ≡ c.generation)
unfolding apply pause resume reset notify_discontinuity set_system_position_us update_audio_position
apply-counts c (starts g p t) h = absurd (ground arith)
apply-counts c (pauses t u) h = (0, omega arith, ground arith, λ z. ground arith)
apply-counts c (resumes t) h = (0, omega arith, ground arith, λ z. ground arith)
apply-counts c (resets g p t) h = (1, omega arith, omega arith, λ z. absurd (omega arith))
apply-counts c (jumps g p t) h = (1, omega arith, omega arith, λ z. absurd (omega arith))
apply-counts c (moves p t) h = (0, omega arith, omega arith, λ z. refl)
apply-counts c (hears g p t) h = elim (Bool-cases (eqb_ℤ p no_timestamp)) [
  | inl e ↦ (0, omega arith, ground (arith, e), λ z. ground (arith, e))
  | inr e ↦ elim (Bool-cases (g == c.generation)) [
    | inl k ↦ (0, omega arith, ground (arith, e, k), λ z. ground (arith, e, k))
    | inr k ↦ (1, omega arith, ground (arith, e, k), λ z. absurd (omega arith))
  ]
]

run-counts :
    (c : UnifiedClock) (es : List Event)
    → NoStart es
    → (k : ℕ) × (k ≤ length es)
      × ((run c es).discontinuity % 2 ^ 64 ≡ (c.discontinuity + k) % 2 ^ 64)
      × (k ≡ 0 → (run c es).generation ≡ c.generation)
unfolding run
run-counts c [] h = (0, omega arith, omega arith, λ z. refl)
run-counts c (e ∷ es) (first, more) =
    let (k, k_le, k_count, k_same) = apply-counts c e first in
    let (m, m_le, m_count, m_same) = run-counts (apply c e) es more in
    (
      m + k,
      omega (arith, k_le, m_le),
      omega (arith, k_count, m_count),
      λ z. m_same (omega (arith, z)) ∙ k_same (omega (arith, z)),
    )

-- Over fewer than 2^64 calls, none of them Start, two snapshots with the same count of discontinuities
-- are of the same generation.
pub snapshot-same_generation :
    (c : UnifiedClock) (es : List Event) (prefer_audio : Bool) (t u : ℕ)
    → NoStart es
    → length es < 2 ^ 64
    → (snapshot c prefer_audio t).discontinuity ≡ (snapshot (run c es) prefer_audio u).discontinuity
    → (snapshot c prefer_audio t).generation ≡ (snapshot (run c es) prefer_audio u).generation
snapshot-same_generation c es prefer_audio t u h few same =
    let (k, k_le, count, keeps) = run-counts c es h in
    let (d, g) = snapshot-fields c prefer_audio t in
    let (d', g') = snapshot-fields (run c es) prefer_audio u in
    let both : c.discontinuity ≡ (run c es).discontinuity = sym d ∙ same ∙ d' in
    g ∙ sym (keeps (omega (arith, k_le, count, both, few))) ∙ sym g'
