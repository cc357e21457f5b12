-- ===== src/Render/PtsNormalizer/Examples.antt =====
-- VideoPtsNormalizer on short runs: the theorems at concrete arguments.
use video_pipeline.Base.{true, [], ◌∷◌, arith}
use video_pipeline.Base.Int.{pos, ◌+ℤ◌}
use video_pipeline.Render.PtsNormalizer.{
  VideoPtsNormalizer, VideoPtsNormalizerConfig, frame_duration_us,
}
use video_pipeline.Render.PtsNormalizer.Timeline.{Steady, done, step}

abbrev config : VideoPtsNormalizerConfig
config = record { enabled = true; fallback_fps = pos 30; max_jump_ms = pos 1000 }

abbrev playing : VideoPtsNormalizer
playing = record {
  config = config;
  last_input_pts_us = pos 100_000;
  last_output_pts_us = pos 100_000;
  has_last = true;
}

two_steps :
    Steady config (pos 0) (record { input_pts_us = pos 40_000; duration_us = pos 40_000 } ∷ [])
unfolding frame_duration_us ◌+ℤ◌
two_steps = step (omega arith) (omega arith) (omega arith, omega arith) done
