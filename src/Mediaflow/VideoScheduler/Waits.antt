-- ===== src/Mediaflow/VideoScheduler/Waits.antt =====
-- VideoPtsScheduler: what it answers to a frame that the clock has not passed.
use video_pipeline.Base.{ℕ, ◌+◌, ◌≤◌, ◌≡◌, refl, min, max, Bool, true, false, ◌&&◌, arith}
use video_pipeline.Base.Int.{ℤ, pos, pos_part, ◌-ℤ◌, ◌≤ℤ◌, ltb_ℤ}
use video_pipeline.Mediaflow.Timing.{non_negative}
use video_pipeline.Mediaflow.VideoScheduler.{
  VideoScheduleConfig, min_ℤ, max_ℤ, render, wait, schedule,
}

-- By how much a frame is too early.
abbrev pub lead : VideoScheduleConfig → ℤ → ℕ
lead config delta = pos_part (delta -ℤ non_negative config.early_threshold_us)

-- The longest wait.
abbrev pub cap : VideoScheduleConfig → ℕ
cap config = max 1000 (pos_part config.max_wait_us)

pub not_behind : (delta t : ℤ) → pos 0 ≤ℤ delta → ltb_ℤ delta (pos 0 -ℤ non_negative t) ≡ false
unfolding ◌-ℤ◌
not_behind delta t low = ground (arith, low)

pub early-test : (delta t : ℤ) → 1 ≤ pos_part (delta -ℤ t) → ltb_ℤ t delta ≡ true
unfolding ◌-ℤ◌
early-test delta t h = ground (arith, h)

pub now-test : (delta t : ℤ) → pos_part (delta -ℤ t) ≡ 0 → ltb_ℤ t delta ≡ false
unfolding ◌-ℤ◌
now-test delta t h = ground (arith, h)

pub shortest :
    (d w : ℤ)
    → pos_part (min_ℤ d (max_ℤ (pos 1000) (non_negative w)))
      ≡ min (pos_part d) (max 1000 (pos_part w))
shortest d w = ground arith

pub false-last : (b : Bool) → (b && false) ≡ false
false-last b = ground arith

pub schedule-early :
    (config : VideoScheduleConfig) (delta : ℤ)
    → pos 0 ≤ℤ delta
    → 1 ≤ lead config delta
    → ((schedule config delta).action ≡ wait)
      × (pos_part (schedule config delta).wait_us ≡ min (lead config delta) (cap config))
unfolding schedule
schedule-early config delta low early =
    rw
      (
        not_behind delta config.max_video_lag_us low,
        not_behind delta config.late_threshold_us low,
        false-last (ltb_ℤ (pos 0) (non_negative config.max_video_lag_us)),
        false-last config.drop_late_video_frames,
        early-test delta (non_negative config.early_threshold_us) early,
      )
      (refl, shortest (delta -ℤ non_negative config.early_threshold_us) config.max_wait_us)

pub schedule-now :
    (config : VideoScheduleConfig) (delta : ℤ)
    → pos 0 ≤ℤ delta
    → lead config delta ≡ 0
    → (schedule config delta).action ≡ render
unfolding schedule
schedule-now config delta low now =
    rw
      (
        not_behind delta config.max_video_lag_us low,
        not_behind delta config.late_threshold_us low,
        false-last (ltb_ℤ (pos 0) (non_negative config.max_video_lag_us)),
        false-last config.drop_late_video_frames,
        now-test delta (non_negative config.early_threshold_us) now,
      )
      refl

-- What a wait does to the distance.
pub lead-step :
    (delta early : ℤ) (w : ℕ)
    → pos 0 ≤ℤ early
    → w ≤ pos_part (delta -ℤ early)
    → (pos_part (delta -ℤ pos w -ℤ early) + w ≡ pos_part (delta -ℤ early))
      × (1 ≤ w → pos 0 ≤ℤ delta -ℤ pos w)
unfolding ◌-ℤ◌
lead-step delta early w low h = ground (arith, low, h)
