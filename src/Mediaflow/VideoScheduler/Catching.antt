-- ===== src/Mediaflow/VideoScheduler/Catching.antt =====
-- VideoPtsScheduler on a UnifiedClock: a caller that waits as it is told shows each frame on time.
use video_pipeline.Base.{
  ℕ, zero, suc, ◌+◌, ◌*◌, ◌≤◌, ◌≡◌, refl, ap, ◌∙◌, min, true, false, arith, ◌==◌, ==_iff,
  Bool-cases, inl, inr,
}
use video_pipeline.Base.Int.{ℤ, pos, pos_part, ◌-ℤ◌, ◌≤ℤ◌, eqb_ℤ, int_laws}
use video_pipeline.Mediaflow.Timing.{int64_max, IsInt64, no_timestamp, non_negative}
use video_pipeline.Mediaflow.UnifiedClock.{UnifiedClock, snapshot}
use video_pipeline.Mediaflow.VideoScheduler.{
  VideoScheduleAction, VideoScheduleConfig, render, drop, wait, schedule, decide,
}
use video_pipeline.Mediaflow.VideoScheduler.Agreement.{subtract-exact}
use video_pipeline.Mediaflow.VideoScheduler.Waits.{
  lead, cap, schedule-early, schedule-now, lead-step,
}
use video_pipeline.Mediaflow.VideoScheduler.Running.{
  Runs, position, position-IsInt64, advance-Runs, decide-running,
}

-- The caller asks, at a time, until the answer is not to wait; the result is the answer and the time then.
-- `rounds` bounds the questions.
unfoldable pub settle : ℕ → VideoScheduleConfig → ℤ → UnifiedClock → ℕ → VideoScheduleAction × ℕ
unfolding decide snapshot
settle zero config pts c now = (wait, now)
settle (suc rounds) config pts c now =
    let d = decide config pts false c.generation (snapshot c false now) in
    let later = settle rounds config pts c (now + pos_part d.wait_us * 1000) in
    elim d.action [ wait ↦ later | render ↦ (render, now) | drop ↦ (drop, now) ]

settle-wait :
    (rounds : ℕ) (config : VideoScheduleConfig) (pts : ℤ) (c : UnifiedClock) (now w : ℕ)
    → (decide config pts false c.generation (snapshot c false now)).action ≡ wait
    → pos_part (decide config pts false c.generation (snapshot c false now)).wait_us ≡ w
    → settle (suc rounds) config pts c now ≡ settle rounds config pts c (now + w * 1000)
unfolding settle
settle-wait rounds config pts c now w e k = rw (settle, e, k) refl

settle-now :
    (rounds : ℕ) (config : VideoScheduleConfig) (pts : ℤ) (c : UnifiedClock) (now : ℕ)
    → (decide config pts false c.generation (snapshot c false now)).action ≡ render
    → settle (suc rounds) config pts c now ≡ (render, now)
unfolding settle
settle-now rounds config pts c now e = rw (settle, e) refl

-- A frame with a time that the running clock has not passed, by no more than int64_t holds.
pub record Ahead (config : VideoScheduleConfig) (pts : ℤ) (c : UnifiedClock) (now : ℕ)
    : Type 0 where
  pub on : config.enabled ≡ true
  pub there : eqb_ℤ pts no_timestamp ≡ false
  pub runs : Runs c now
  pub range : IsInt64 pts
  pub ahead : pos 0 ≤ℤ pts -ℤ position c now
  pub near : pts -ℤ position c now ≤ℤ int64_max

-- The scheduler sees the exact distance.
decide-Ahead :
    (config : VideoScheduleConfig) (pts : ℤ) (c : UnifiedClock) (now : ℕ)
    → Ahead config pts c now
    → decide config pts false c.generation (snapshot c false now)
      ≡ schedule config (pts -ℤ position c now)
decide-Ahead config pts c now a =
    decide-running config pts c now a.on a.there a.runs
    ∙ ap (schedule config) (
        subtract-exact pts (position c now) a.range (position-IsInt64 c now a.runs.range)
          (omega (arith, a.ahead), a.near))

-- After a wait that ends before the frame's time the frame is still ahead, and less early by the wait.
waited :
    (config : VideoScheduleConfig) (pts : ℤ) (c : UnifiedClock) (now w : ℕ)
    → Ahead config pts c now
    → 1 ≤ w
    → w ≤ lead config (pts -ℤ position c now)
    → Ahead config pts c (now + w * 1000)
      × (lead config (pts -ℤ position c (now + w * 1000)) + w ≡ lead config (pts -ℤ position c now))
waited config pts c now w a some_wait h =
    let p = position c now in
    let early = non_negative config.early_threshold_us in
    let low : pos 0 ≤ℤ early = ground arith in
    let (left, stays) = lead-step (pts -ℤ p) early w low h in
    let on_time : pos 0 ≤ℤ pts -ℤ p -ℤ pos w = stays some_wait in
    let moved = advance-Runs c now w a.runs (omega (int_laws, on_time, a.range.1)) in
    let distance : pts -ℤ position c (now + w * 1000) ≡ pts -ℤ p -ℤ pos w =
      ap (λ q. pts -ℤ q) moved ∙ omega int_laws in
    (
      record {
        on = a.on;
        there = a.there;
        runs = record {
          running = a.runs.running;
          playing = a.runs.playing;
          range = a.runs.range;
          time = omega (arith, a.runs.time);
        };
        range = a.range;
        ahead = rw distance on_time;
        near = rw distance (omega (int_laws, a.near));
      },
      rw distance left,
    )

-- A caller that asks an enabled VideoPtsScheduler about a frame that is not a keyframe, and has a time and the
-- generation of the clock, waits as long as it is told and asks again, on the system master of a UnifiedClock
-- that runs meanwhile, shows a frame that the clock has not passed exactly when the clock is the early
-- threshold before the frame's time, or at once if that is past; there is at most one question for each
-- millisecond of the lead, and one more.
pub settle-Ahead :
    (rounds : ℕ) (config : VideoScheduleConfig) (pts : ℤ) (c : UnifiedClock) (now : ℕ)
    → Ahead config pts c now
    → lead config (pts -ℤ position c now) + 1000 ≤ rounds * 1000
    → settle rounds config pts c now ≡ (render, now + lead config (pts -ℤ position c now) * 1000)
settle-Ahead zero config pts c now a enough = absurd (omega arith)
settle-Ahead (suc rounds) config pts c now a enough =
    let delta = pts -ℤ position c now in
    let d = decide-Ahead config pts c now a in
    elim (Bool-cases (lead config delta == 0)) [
      | inl e ↦
          let zero_lead = (==_iff (lead config delta) 0).0 e in
          settle-now rounds config pts c now
            (ap (λ x. x.action) d ∙ schedule-now config delta a.ahead zero_lead)
          ∙ ap (λ n. (render, n)) (omega (arith, zero_lead))
      | inr e ↦
          let w = min (lead config delta) (cap config) in
          let some_lead : 1 ≤ lead config delta = ground (arith, e) in
          let (waits, long) = schedule-early config delta a.ahead some_lead in
          let (next, less) = waited config pts c now w a (omega arith) (omega arith) in
          settle-wait rounds config pts c now w (ap (λ x. x.action) d ∙ waits)
            (ap (λ x. pos_part x.wait_us) d ∙ long)
          ∙ settle-Ahead rounds config pts c (now + w * 1000) next (omega (arith, less, enough))
          ∙ ap (λ n. (render, n)) (omega (arith, less))
    ]
