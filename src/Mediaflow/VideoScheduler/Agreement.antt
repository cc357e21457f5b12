-- ===== src/Mediaflow/VideoScheduler/Agreement.antt =====
-- VideoPtsScheduler and AvSyncController of src/render decide alike.
use video_pipeline.Base.{
  ℕ, ◌≡◌, refl, ◌∙◌, Bool, true, false, not, ◌&&◌, ◌||◌, arith, ◌==◌, if◌then◌else◌, ==_iff,
  Bool-cases, inl, inr,
}
use video_pipeline.Base.Int.{ℤ, pos, ◌+ℤ◌, ◌-ℤ◌, ltb_ℤ, eqb_ℤ}
use video_pipeline.Render.PtsNormalizer.{milliseconds_to_us}
use video_pipeline.Render.AvSync.{AvSyncConfig, AvSyncAction, AvSyncDecision}
use video_pipeline.Render.AvSync as Controller
use video_pipeline.Mediaflow.Timing.{IsInt64, no_timestamp, saturating_subtract, non_negative}
use video_pipeline.Mediaflow.Timing.Saturation.{clamp-same, saturating_subtract-clamp}
use video_pipeline.Mediaflow.UnifiedClock.{ClockSnapshot}
use video_pipeline.Mediaflow.VideoScheduler.{
  VideoScheduleAction, VideoScheduleConfig, VideoScheduleDecision, render, drop, wait, shown,
  schedule, decide,
}

-- The two controllers name their actions alike.
abbrev pub same_action : VideoScheduleAction → AvSyncAction
same_action render = Controller.render
same_action drop = Controller.drop
same_action wait = Controller.wait

-- The same thresholds, in microseconds and in milliseconds; AvSyncController knows no hard limit.
pub record SameThresholds (config : VideoScheduleConfig) (controller : AvSyncConfig) : Type 0 where
  pub enabled : config.enabled ≡ controller.enabled
  pub late :
      non_negative config.late_threshold_us ≡ pos (milliseconds_to_us controller.late_threshold_ms)
  pub early :
      non_negative config.early_threshold_us
      ≡ pos (milliseconds_to_us controller.early_threshold_ms)
  pub drops_late : config.drop_late_video_frames ≡ controller.drop_late_video_frames
  pub no_limit : non_negative config.max_video_lag_us ≡ pos 0

pub subtract-exact :
    (a b : ℤ) → IsInt64 a → IsInt64 b → IsInt64 (a -ℤ b) → saturating_subtract a b ≡ a -ℤ b
subtract-exact a b h k range = saturating_subtract-clamp a b h k ∙ clamp-same (a -ℤ b) range

negate-test : (d : ℤ) (n : ℕ) → ltb_ℤ d (pos 0 -ℤ pos n) ≡ ltb_ℤ (d +ℤ pos n) (pos 0)
unfolding ◌+ℤ◌ ◌-ℤ◌
negate-test d n = ground arith

-- Both look at a frame that is late, early or neither in the same way.
abbrev pub Agrees : VideoScheduleDecision → AvSyncDecision → Type 0
Agrees d e = (same_action d.action ≡ e.action) × (d.delta_us ≡ e.delta_us)

-- The branches of the two, whatever their tests are.
branches :
    (a b e : Bool) (delta w : ℤ) (n : ℕ)
    → Agrees
        (if a && b
          then record (shown false delta) { action = drop }
          else if e
          then record (shown false delta) { action = wait; wait_us = w }
          else shown false delta)
        (if a && b
          then record { action = Controller.drop; delta_us = delta; wait_duration = 0 }
          else if e
          then record { action = Controller.wait; delta_us = delta; wait_duration = n }
          else record { action = Controller.render; delta_us = delta; wait_duration = 0 })
branches a b e delta w n = ground arith

schedule-Agrees :
    (config : VideoScheduleConfig) (controller : AvSyncConfig) (delta : ℤ)
    → SameThresholds config controller
    → Agrees (schedule config delta) (
        if Controller.is_late controller delta
        then record { action = Controller.drop; delta_us = delta; wait_duration = 0 }
        else if Controller.is_early controller delta
        then record {
          action = Controller.wait;
          delta_us = delta;
          wait_duration = Controller.wait_ms controller delta;
        }
        else record { action = Controller.render; delta_us = delta; wait_duration = 0 })
unfolding schedule Controller.is_late Controller.is_early
schedule-Agrees config controller delta s =
    rw
      (
        s.no_limit,
        s.late,
        s.early,
        negate-test delta (milliseconds_to_us controller.late_threshold_ms),
        s.drops_late,
      )
      (branches controller.drop_late_video_frames
        (ltb_ℤ (delta +ℤ pos (milliseconds_to_us controller.late_threshold_ms)) (pos 0))
        (ltb_ℤ (pos (milliseconds_to_us controller.early_threshold_ms)) delta) delta _ _)

-- At thresholds that agree, for a frame with a time, of the clock's generation and not a keyframe,
-- VideoPtsScheduler and AvSyncController decide on the same action at the same distance from the clock,
-- if no difference leaves the range of int64_t.
pub decide-Agrees :
    (config : VideoScheduleConfig) (controller : AvSyncConfig) (pts : ℤ) (clock : ClockSnapshot)
    → SameThresholds config controller
    → eqb_ℤ pts no_timestamp ≡ false
    → IsInt64 pts
    → IsInt64 clock.position_us
    → IsInt64 (pts -ℤ clock.position_us)
    → Agrees (decide config pts false clock.generation clock) (
        Controller.decide controller pts (record {
          position_us = clock.position_us;
          source = Controller.system;
          valid = clock.valid;
        }))
unfolding decide Controller.decide
decide-Agrees config controller pts clock s there h k range =
    let skipped : (not config.enabled || eqb_ℤ pts no_timestamp || not clock.valid)
        ≡ (not controller.enabled || not clock.valid) =
      ground (arith, s.enabled, there) in
    let same : (clock.generation == clock.generation) ≡ true =
      (==_iff clock.generation clock.generation).1 refl in
    elim (Bool-cases (not controller.enabled || not clock.valid)) [
      | inl e ↦ rw (skipped, e) (refl, refl)
      | inr e ↦
          rw (skipped, e, same, subtract-exact pts clock.position_us h k range)
            (schedule-Agrees config controller (pts -ℤ clock.position_us) s)
    ]
