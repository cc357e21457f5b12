-- ===== src/Mediaflow/VideoScheduler/Running.antt =====
-- VideoPtsScheduler on a UnifiedClock that runs.
use video_pipeline.Base.{
  ℕ, ◌+◌, ◌-◌, ◌*◌, ◌/◌, ◌≤◌, ◌≡◌, refl, ap, ◌∙◌, true, false, not, ◌||◌, arith, ◌==◌, ==_iff, ◌⊎◌,
  inl, inr,
}
use video_pipeline.Base.Int.{ℤ, pos, pos_part, neg_part, ◌+ℤ◌, ◌-ℤ◌, ◌≤ℤ◌, eqb_ℤ, int_laws}
use video_pipeline.Mediaflow.Timing.{
  int64_max, IsInt64, no_timestamp, saturating_add, saturating_subtract,
}
use video_pipeline.Mediaflow.UnifiedClock.{UnifiedClock, snapshot, system_position_us_locked}
use video_pipeline.Mediaflow.VideoScheduler.{VideoScheduleConfig, schedule, decide}

-- A clock that runs, at a time not before its reference.
pub record Runs (c : UnifiedClock) (now : ℕ) : Type 0 where
  pub running : c.running ≡ true
  pub playing : c.paused ≡ false
  pub range : IsInt64 c.reference_position_us
  pub time : c.reference_time ≤ now

pub add-cases :
    (a : ℤ) (n : ℕ)
    → IsInt64 a
    → ((saturating_add a (pos n) ≡ a +ℤ pos n) × (a +ℤ pos n ≤ℤ int64_max))
      ⊎ ((saturating_add a (pos n) ≡ int64_max) × (int64_max +ℤ pos 1 ≤ℤ a +ℤ pos n))
unfolding saturating_add ◌+ℤ◌ ◌-ℤ◌
add-cases a n range = ground (arith, range)

pub microseconds :
    (now reference w : ℕ)
    → reference ≤ now
    → (now + w * 1000 - reference) / 1000 ≡ (now - reference) / 1000 + w
microseconds now reference w h = omega (arith, h)

pub advance :
    (a : ℤ) (n w : ℕ)
    → IsInt64 a
    → saturating_add a (pos n) +ℤ pos w ≤ℤ int64_max
    → saturating_add a (pos (n + w)) ≡ saturating_add a (pos n) +ℤ pos w
advance a n w range h =
    let now = add-cases a n range in
    let then' = add-cases a (n + w) range in
    elim now [
      | inr (e, more) ↦ elim then' [
        | inl (k, less) ↦ absurd (omega (int_laws, more, less))
        | inr (k, _) ↦ k ∙ omega (int_laws, h, ap pos_part e, ap neg_part e)
      ]
      | inl (e, less) ↦ elim then' [
        | inl (k, _) ↦ k ∙ omega (int_laws, ap pos_part e, ap neg_part e)
        | inr (k, more) ↦ absurd (omega (int_laws, h, more, ap pos_part e, ap neg_part e))
      ]
    ]

-- The clock's position at a time.
abbrev pub position : UnifiedClock → ℕ → ℤ
position c now = saturating_add c.reference_position_us (pos ((now - c.reference_time) / 1000))

pub advance-Runs :
    (c : UnifiedClock) (now w : ℕ)
    → Runs c now
    → position c now +ℤ pos w ≤ℤ int64_max
    → position c (now + w * 1000) ≡ position c now +ℤ pos w
advance-Runs c now w r h =
    ap (λ n. saturating_add c.reference_position_us (pos n))
      (microseconds now c.reference_time w r.time)
    ∙ advance c.reference_position_us ((now - c.reference_time) / 1000) w r.range h

-- With a running clock the answer is the scheduler's for the distance from the clock.
pub decide-running :
    (config : VideoScheduleConfig) (pts : ℤ) (c : UnifiedClock) (now : ℕ)
    → config.enabled ≡ true
    → eqb_ℤ pts no_timestamp ≡ false
    → Runs c now
    → decide config pts false c.generation (snapshot c false now)
      ≡ schedule config (saturating_subtract pts (position c now))
unfolding decide snapshot system_position_us_locked
decide-running config pts c now on there r =
    let running : (not c.running || c.paused) ≡ false = ground (arith, r.running, r.playing) in
    let valid : (not config.enabled
          || eqb_ℤ pts no_timestamp
          || not (c.running || c.has_audio_position))
        ≡ false =
      ground (arith, r.running, on, there) in
    let same : (c.generation == c.generation) ≡ true = (==_iff c.generation c.generation).1 refl in
    rw (valid, same, running) refl

pub position-IsInt64 :
    (c : UnifiedClock) (now : ℕ) → IsInt64 c.reference_position_us → IsInt64 (position c now)
position-IsInt64 c now range =
    let n = (now - c.reference_time) / 1000 in
    elim (add-cases c.reference_position_us n range) [
      | inl (e, less) ↦ rw e (omega (int_laws, range.0), less)
      | inr (e, _) ↦ rw e (omega arith, omega arith)
    ]
