-- ===== src/Render/AvSync.antt =====
-- src/render/av_sync_controller.cpp: whether a video frame is shown, dropped or held back.
pub mod Waiting
mod Examples
use video_pipeline.Base.{
  ℕ, ◌-◌, ◌*◌, ◌/◌, min, max, Bool, true, false, not, ◌&&◌, ◌||◌, if◌then◌else◌,
}
use video_pipeline.Base.Int.{ℤ, pos, pos_part, ◌+ℤ◌, ◌-ℤ◌, ltb_ℤ}
use video_pipeline.Render.PtsNormalizer.{milliseconds_to_us}

pub record AvSyncConfig : Type 0 where
  pub enabled : Bool
  pub wait_audio_for_video_start : Bool
  pub late_threshold_ms : ℤ
  pub max_video_lag_ms : ℤ
  pub early_threshold_ms : ℤ
  pub max_wait_ms : ℤ
  pub drop_late_video_frames : Bool

pub data MediaClockSource : Type 0 where
  system audio : MediaClockSource

pub record MediaClockSnapshot : Type 0 where
  pub position_us : ℤ
  pub source : MediaClockSource
  pub valid : Bool

pub data AvSyncAction : Type 0 where
  render drop wait : AvSyncAction

pub record AvSyncDecision : Type 0 where
  pub action : AvSyncAction
  pub delta_us : ℤ
  pub wait_duration : ℕ

-- `wait_us` is positive where it is used, so it is a natural number.
pub wait_ms : AvSyncConfig → ℤ → ℕ
wait_ms config delta_us =
    let over = pos_part (delta_us -ℤ pos (milliseconds_to_us config.early_threshold_ms)) in
    max 1 (min over (max 1000 (milliseconds_to_us config.max_wait_ms)) / 1000)

unfoldable pub is_late : AvSyncConfig → ℤ → Bool
is_late config delta_us =
    config.drop_late_video_frames
    && ltb_ℤ (delta_us +ℤ pos (milliseconds_to_us config.late_threshold_ms)) (pos 0)

unfoldable pub is_early : AvSyncConfig → ℤ → Bool
is_early config delta_us = ltb_ℤ (pos (milliseconds_to_us config.early_threshold_ms)) delta_us

unfoldable pub decide : AvSyncConfig → ℤ → MediaClockSnapshot → AvSyncDecision
unfolding wait_ms is_late is_early
decide config video_pts_us clock =
    let delta = video_pts_us -ℤ clock.position_us in
    if not config.enabled || not clock.valid
    then record { action = render; delta_us = pos 0; wait_duration = 0 }
    else if is_late config delta
    then record { action = drop; delta_us = delta; wait_duration = 0 }
    else if is_early config delta
    then record { action = wait; delta_us = delta; wait_duration = wait_ms config delta }
    else record { action = render; delta_us = delta; wait_duration = 0 }
