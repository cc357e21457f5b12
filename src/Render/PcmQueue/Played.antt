-- ===== src/Render/PcmQueue/Played.antt =====
-- PlayedPtsUs of AudioPcmQueue against the history of what the device was given.
use video_pipeline.Base.{ℕ, List, [], ◌∷◌, Option, none, some, if◌then◌else◌}
use video_pipeline.Base.Int.{ℤ, ◌+ℤ◌, ltb_ℤ}
use video_pipeline.Mediaflow.Timing.{int64_max}
use video_pipeline.Render.PcmQueue.{
  AudioPcmQueue, record_device_media_frames, record_device_silence_frames, offset_us, played_pts_us,
}
use video_pipeline.Render.PcmQueue.History.{Event, media, silence, asks, Written, Tells}

module _ {Q : Type 0} where
  unfoldable pub run : AudioPcmQueue Q → List Event → AudioPcmQueue Q
  unfolding record_device_media_frames record_device_silence_frames
  run s [] = s
  run s (media count pts_us ∷ es) = run (record_device_media_frames s count pts_us) es
  run s (silence count ∷ es) = run (record_device_silence_frames s count) es
  run s (asks sample_rate padding_frames ∷ es) =
      run (played_pts_us s sample_rate padding_frames).1 es

  -- The same of a queue.
  abbrev QueueTells : ℕ → List Written → AudioPcmQueue Q → Type 0
  QueueTells top ws s = Tells top ws s.device_written_frames s.device_timeline

-- The time of a frame, at most int64_t, or the last one told for a frame without a time.
abbrev pub source_time : ℕ → ℤ → Option (ℤ × ℕ) → ℤ
source_time sample_rate last none = last
source_time sample_rate last (some (at_us, n)) =
    let time = at_us +ℤ offset_us n sample_rate in if ltb_ℤ int64_max time then int64_max else time
