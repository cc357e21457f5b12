-- ===== src/Mediaflow/VideoScheduler/Examples.antt =====
-- VideoPtsScheduler at concrete thresholds.
use video_pipeline.Base.{◌≡◌, refl, true, false, not, ◌&&◌, arith}
use video_pipeline.Base.Int.{pos, ◌+ℤ◌, ◌-ℤ◌}
use video_pipeline.Mediaflow.Timing.{saturating_add}
use video_pipeline.Render.AvSync.{AvSyncConfig}
use video_pipeline.Render.AvSync as Controller
use video_pipeline.Mediaflow.UnifiedClock.{ClockSnapshot, UnifiedClock, new_clock, start, system}
use video_pipeline.Mediaflow.VideoScheduler.{VideoScheduleConfig, render, decide}
use video_pipeline.Mediaflow.VideoScheduler.Dropping.{is_drop, is_compared, may_drop, decide-drops}
use video_pipeline.Mediaflow.VideoScheduler.Agreement.{Agrees, decide-Agrees}
use video_pipeline.Mediaflow.VideoScheduler.Catching.{settle, settle-Ahead}

abbrev config : VideoScheduleConfig
config = record {
  enabled = true;
  late_threshold_us = pos 80_000;
  max_video_lag_us = pos 0;
  early_threshold_us = pos 20_000;
  max_wait_us = pos 20_000;
  drop_late_video_frames = true;
}

abbrev clock : ClockSnapshot
clock = record {
  position_us = pos 500_000;
  source = system;
  generation = 1;
  discontinuity = 0;
  valid = true;
}

decide-drops_example : is_drop (decide config (pos 400_000) false 1 clock).action ≡ (
    is_compared config (pos 400_000) 1 clock
    && not false
    && may_drop config (pos 400_000) clock.position_us)
decide-drops_example =
    decide-drops config (pos 400_000) false 1 clock
      ((omega arith, omega arith), (omega arith, omega arith)) (omega arith, omega arith)
      (omega arith, omega arith)

abbrev controller : AvSyncConfig
controller = record {
  enabled = true;
  wait_audio_for_video_start = true;
  late_threshold_ms = pos 80;
  max_video_lag_ms = pos 0;
  early_threshold_ms = pos 20;
  max_wait_ms = pos 20;
  drop_late_video_frames = true;
}

decide-Agrees_example : Agrees (decide config (pos 600_000) false 1 clock) (
    Controller.decide controller
      (pos 600_000)
      (record { position_us = pos 500_000; source = Controller.system; valid = true }))
unfolding ◌-ℤ◌
decide-Agrees_example =
    decide-Agrees config controller (pos 600_000) clock
      (record { enabled = refl; late = refl; early = refl; drops_late = refl; no_limit = refl })
      refl (omega arith, omega arith) (omega arith, omega arith) (omega arith, omega arith)

abbrev running : UnifiedClock
running = start (new_clock 0) 1 (pos 500_000) 0

settle-Ahead_example : settle 81 config (pos 600_000) running 1_000_000 ≡ (render, 80_000_000)
unfolding start saturating_add ◌+ℤ◌ ◌-ℤ◌
settle-Ahead_example =
    settle-Ahead 81 config (pos 600_000) running 1_000_000
      (record {
        on = refl;
        there = refl;
        runs = record {
          running = refl;
          playing = refl;
          range = (omega arith, omega arith);
          time = omega arith;
        };
        range = (omega arith, omega arith);
        ahead = omega arith;
        near = omega arith;
      })
      (omega arith)
