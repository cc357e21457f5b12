-- ===== src/Mediaflow/VideoScheduler.antt =====
-- VideoPtsScheduler of src/mediaflow/media_timing.cpp: whether a frame is shown, dropped or held back.
pub mod Agreement
pub mod Dropping
mod Waits
mod Running
pub mod Catching
mod Examples
use video_pipeline.Base.{ℕ, Bool, true, false, not, ◌&&◌, ◌||◌, ◌==◌, if◌then◌else◌}
use video_pipeline.Base.Int.{ℤ, pos, negsuc, neg_part, ◌+ℤ◌, ◌-ℤ◌, ltb_ℤ, eqb_ℤ}
use video_pipeline.Mediaflow.Timing.{no_timestamp, saturating_subtract, non_negative}
use video_pipeline.Mediaflow.UnifiedClock.{ClockSnapshot}

pub data VideoScheduleAction : Type 0 where
  render drop wait : VideoScheduleAction

pub record VideoScheduleConfig : Type 0 where
  pub enabled : Bool
  pub late_threshold_us : ℤ
  pub max_video_lag_us : ℤ
  pub early_threshold_us : ℤ
  pub max_wait_us : ℤ
  pub drop_late_video_frames : Bool

pub record VideoScheduleDecision : Type 0 where
  pub action : VideoScheduleAction
  pub delta_us : ℤ
  pub wait_us : ℤ
  pub keyframe : Bool
  pub clock_reset : Bool
  pub catch_up : Bool

-- The decision that shows the frame.
abbrev pub shown : Bool → ℤ → VideoScheduleDecision
shown keyframe delta = record {
  action = render;
  delta_us = delta;
  wait_us = pos 0;
  keyframe = keyframe;
  clock_reset = false;
  catch_up = false;
}

abbrev pub min_ℤ : ℤ → ℤ → ℤ
min_ℤ a b = if ltb_ℤ b a then b else a

abbrev pub max_ℤ : ℤ → ℤ → ℤ
max_ℤ a b = if ltb_ℤ a b then b else a

-- Behind the guards of Decide: a frame, not a keyframe, at this distance from the clock.
unfoldable pub schedule : VideoScheduleConfig → ℤ → VideoScheduleDecision
schedule config delta =
    let max_lag = non_negative config.max_video_lag_us in
    let late = non_negative config.late_threshold_us in
    let early = non_negative config.early_threshold_us in
    if ltb_ℤ (pos 0) max_lag && ltb_ℤ delta (pos 0 -ℤ max_lag)
    then record (shown false delta) { action = drop; catch_up = true }
    else if config.drop_late_video_frames && ltb_ℤ delta (pos 0 -ℤ late)
    then record (shown false delta) { action = drop }
    else if ltb_ℤ early delta
    then record (shown false delta) {
      action = wait;
      wait_us = min_ℤ (delta -ℤ early) (max_ℤ (pos 1000) (non_negative config.max_wait_us));
    }
    else shown false delta

unfoldable pub decide : VideoScheduleConfig → ℤ → Bool → ℕ → ClockSnapshot → VideoScheduleDecision
unfolding schedule
decide config video_pts_us keyframe generation clock =
    if not config.enabled || eqb_ℤ video_pts_us no_timestamp || not clock.valid
    then shown keyframe (pos 0)
    else if not (generation == clock.generation)
    then record (shown keyframe (pos 0)) { clock_reset = true }
    else if keyframe
    then shown true (saturating_subtract video_pts_us clock.position_us)
    else schedule config (saturating_subtract video_pts_us clock.position_us)
