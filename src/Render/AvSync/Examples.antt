-- ===== src/Render/AvSync/Examples.antt =====
-- AvSyncController with its default thresholds: the theorem at concrete arguments.
use video_pipeline.Base.{◌≡◌, refl, true, arith}
use video_pipeline.Base.Int.{pos, ◌+ℤ◌, ◌-ℤ◌}
use video_pipeline.Render.AvSync.{AvSyncConfig, render}
use video_pipeline.Render.AvSync.Waiting.{settle, settle-render}

abbrev config : AvSyncConfig
config = record {
  enabled = true;
  wait_audio_for_video_start = true;
  late_threshold_ms = pos 80;
  max_video_lag_ms = pos 0;
  early_threshold_ms = pos 20;
  max_wait_ms = pos 20;
  drop_late_video_frames = true;
}

settle-render_example : (settle 101 config (pos 150_000) (pos 50_000)).0 ≡ render
unfolding ◌-ℤ◌ ◌+ℤ◌
settle-render_example =
    settle-render 101 config (pos 150_000) (pos 50_000) refl (omega arith) (omega arith)
      (omega arith)
