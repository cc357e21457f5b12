-- ===== src/Mediaflow/VideoScheduler/Dropping.antt =====
-- VideoPtsScheduler: when it drops a frame.
use video_pipeline.Base.{
  ℕ, ◌≡◌, refl, ◌∙◌, Bool, true, false, not, ◌&&◌, ◌||◌, arith, ◌==◌, if◌then◌else◌,
}
use video_pipeline.Base.Int.{ℤ, pos, ◌+ℤ◌, ◌-ℤ◌, ◌≤ℤ◌, ltb_ℤ, eqb_ℤ}
use video_pipeline.Mediaflow.Timing.{IsInt64, no_timestamp, saturating_subtract, non_negative}
use video_pipeline.Mediaflow.Timing.Saturation.{clamp, saturating_subtract-clamp}
use video_pipeline.Mediaflow.UnifiedClock.{ClockSnapshot}
use video_pipeline.Mediaflow.VideoScheduler.{
  VideoScheduleAction, VideoScheduleConfig, VideoScheduleDecision, render, drop, wait, shown,
  schedule, decide,
}

abbrev pub is_drop : VideoScheduleAction → Bool
is_drop drop = true
is_drop _ = false

-- The frame lies this far behind the clock, by exact arithmetic.
abbrev behind : ℤ → ℤ → ℤ → Bool
behind pts position threshold = ltb_ℤ (pts +ℤ non_negative threshold) position

abbrev pub may_drop : VideoScheduleConfig → ℤ → ℤ → Bool
may_drop config pts position =
    ltb_ℤ (pos 0) config.max_video_lag_us && behind pts position config.max_video_lag_us
    || config.drop_late_video_frames && behind pts position config.late_threshold_us

-- The thresholds are int64_t.
abbrev pub ConfigInRange : VideoScheduleConfig → Type 0
ConfigInRange config = IsInt64 config.late_threshold_us × IsInt64 config.max_video_lag_us

non_negative-range : (t : ℤ) → IsInt64 t → (pos 0 ≤ℤ non_negative t) × IsInt64 (non_negative t)
non_negative-range t h = ground (arith, h)

clamp-test :
    (d t : ℤ) → pos 0 ≤ℤ t → IsInt64 t → ltb_ℤ (clamp d) (pos 0 -ℤ t) ≡ ltb_ℤ (d +ℤ t) (pos 0)
unfolding clamp ◌+ℤ◌ ◌-ℤ◌
clamp-test d t low h = ground (arith, low, h)

shift-test : (a b t : ℤ) → ltb_ℤ (a -ℤ b +ℤ t) (pos 0) ≡ ltb_ℤ (a +ℤ t) b
unfolding ◌+ℤ◌ ◌-ℤ◌
shift-test a b t = ground arith

-- The test for a late frame is exact.
late-test :
    (pts position t : ℤ)
    → IsInt64 pts
    → IsInt64 position
    → pos 0 ≤ℤ t
    → IsInt64 t
    → ltb_ℤ (saturating_subtract pts position) (pos 0 -ℤ t) ≡ ltb_ℤ (pts +ℤ t) position
late-test pts position t h k low range =
    rw (saturating_subtract-clamp pts position h k)
      (clamp-test (pts -ℤ position) t low range ∙ shift-test pts position t)

positive-test : (t : ℤ) → ltb_ℤ (pos 0) (non_negative t) ≡ ltb_ℤ (pos 0) t
positive-test t = ground arith

-- The shape of the tests, whatever they test.
drops :
    (a b c d e : Bool) (x y z w : VideoScheduleDecision)
    → x.action ≡ drop
    → y.action ≡ drop
    → z.action ≡ wait
    → w.action ≡ render
    → is_drop (if a && b then x else if c && d then y else if e then z else w).action
      ≡ (a && b || c && d)
drops a b c d e x y z w ex ey ez ew = ground (arith, ex, ey, ez, ew)

schedule-drop :
    (config : VideoScheduleConfig) (delta : ℤ)
    → is_drop (schedule config delta).action ≡ (
        ltb_ℤ (pos 0) (non_negative config.max_video_lag_us)
          && ltb_ℤ delta (pos 0 -ℤ non_negative config.max_video_lag_us)
        || config.drop_late_video_frames
          && ltb_ℤ delta (pos 0 -ℤ non_negative config.late_threshold_us))
unfolding schedule
schedule-drop config delta =
    drops (ltb_ℤ (pos 0) (non_negative config.max_video_lag_us))
      (ltb_ℤ delta (pos 0 -ℤ non_negative config.max_video_lag_us)) config.drop_late_video_frames
      (ltb_ℤ delta (pos 0 -ℤ non_negative config.late_threshold_us)) _ _ _ _ _ refl refl refl refl

guards :
    (on missing valid same keyframe late : Bool) (d : VideoScheduleDecision) (delta : ℤ)
    → is_drop d.action ≡ late
    → is_drop
        (if not on || missing || not valid
          then shown keyframe (pos 0)
          else if not same
          then record (shown keyframe (pos 0)) { clock_reset = true }
          else if keyframe
          then shown true delta
          else d).action
      ≡ (on && not missing && valid && same && not keyframe && late)
guards on missing valid same keyframe late d delta e = ground (arith, e)

schedule-may_drop :
    (config : VideoScheduleConfig) (pts position : ℤ)
    → ConfigInRange config
    → IsInt64 pts
    → IsInt64 position
    → is_drop (schedule config (saturating_subtract pts position)).action
      ≡ may_drop config pts position
schedule-may_drop config pts position (late, lag) h k =
    let (lag_low, lag_range) = non_negative-range config.max_video_lag_us lag in
    let (late_low, late_range) = non_negative-range config.late_threshold_us late in
    schedule-drop config (saturating_subtract pts position)
    ∙ rw
        (
          positive-test config.max_video_lag_us,
          late-test pts position (non_negative config.max_video_lag_us) h k lag_low lag_range,
          late-test pts position (non_negative config.late_threshold_us) h k late_low late_range,
        )
        refl

-- The frame is compared with the clock at all.
abbrev pub is_compared : VideoScheduleConfig → ℤ → ℕ → ClockSnapshot → Bool
is_compared config pts generation clock =
    config.enabled && not (eqb_ℤ pts no_timestamp) && clock.valid && generation == clock.generation

-- With int64_t arguments Decide drops a frame exactly if the scheduler is enabled, the frame has a time and the generation of
-- a valid clock, is not a keyframe, and is behind the clock by more than the lag that is allowed, if one is set, or by
-- more than the late threshold, if late frames are to be dropped.
pub decide-drops :
    (config : VideoScheduleConfig) (pts : ℤ) (keyframe : Bool) (generation : ℕ)
    (clock : ClockSnapshot)
    → ConfigInRange config
    → IsInt64 pts
    → IsInt64 clock.position_us
    → is_drop (decide config pts keyframe generation clock).action ≡ (
        is_compared config pts generation clock
        && not keyframe
        && may_drop config pts clock.position_us)
unfolding decide
decide-drops config pts keyframe generation clock range h k =
    guards config.enabled (eqb_ℤ pts no_timestamp) clock.valid (generation == clock.generation)
      keyframe _ _ _ (schedule-may_drop config pts clock.position_us range h k)
