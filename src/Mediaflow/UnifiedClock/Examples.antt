-- ===== src/Mediaflow/UnifiedClock/Examples.antt =====
-- UnifiedClock at concrete times.
use video_pipeline.Base.{◌≡◌, refl, true, List, [], ◌∷◌, arith}
use video_pipeline.Base.Int.{pos, ◌+ℤ◌, ◌-ℤ◌}
use video_pipeline.Mediaflow.Timing.{saturating_add}
use video_pipeline.Render.PlaybackClock.{
  reset as playback_reset, pause as playback_pause, resume as playback_resume,
}
use video_pipeline.Mediaflow.UnifiedClock.{UnifiedClock, new_clock, snapshot}
use video_pipeline.Mediaflow.UnifiedClock.Generations.{
  Event, pauses, resumes, hears, run, snapshot-same_generation,
}
use video_pipeline.Mediaflow.UnifiedClock.Refinement.{
  reads, starts as starts', pauses as pauses', resumes as resumes', playback_readings,
  unified_readings, unified_readings_lem,
}
use video_pipeline.Mediaflow.UnifiedClock.Refinement as Refinement

abbrev calls : List Event
calls = hears 1 (pos 500) 2_000 ∷ pauses 3_000 3_001 ∷ resumes 9_000 ∷ []

abbrev begun : UnifiedClock
begun = run (new_clock 0) (hears 1 (pos 0) 0 ∷ [])

snapshot-same_generation_example :
    (snapshot begun true 0).generation ≡ (snapshot (run begun calls) true 10_000).generation
unfolding run snapshot saturating_add ◌+ℤ◌ ◌-ℤ◌
snapshot-same_generation_example =
    snapshot-same_generation begun calls true 0 10_000 (refl, (refl, (refl, tt))) (omega arith) refl

abbrev playback : List Refinement.Event
playback =
    starts' (pos 40) 1_000 ∷ reads 9_000 ∷ pauses' 9_000 9_500 ∷ resumes' 20_000 ∷ reads 25_000 ∷ []

unified_readings_lem_example :
    unified_readings (new_clock 0) playback ≡ playback_readings (playback_reset (pos 0) 0) playback
unfolding playback_pause playback_resume ◌+ℤ◌
unified_readings_lem_example =
    unified_readings_lem (playback_reset (pos 0) 0) (new_clock 0) playback
      (record {
        running = refl;
        paused = refl;
        time = refl;
        position = refl;
        range = (omega arith, omega arith);
      })
      (
        (omega arith, omega arith),
        (
          (omega arith, omega arith),
          ((omega arith, omega arith), ((omega arith, omega arith), tt)),
        ),
      )
