-- ===== src/Render/FillPolicy.antt =====
-- src/render/audio/audio_buffer_fill_policy.cpp: how many frames to write into the audio device.
pub mod Requests
use video_pipeline.Base.{
  ℕ, ◌+◌, ◌-◌, ◌/◌, ◌%◌, ◌^◌, min, max, Bool, true, false, ◌==◌, if◌then◌else◌,
}
use video_pipeline.Base.Int.{ℤ, pos_part}

pub record AudioBufferFillContext : Type 0 where
  pub available_frames : ℕ
  pub active_remaining_frames : ℕ
  pub queued_frames : ℤ
  pub sample_rate : ℤ

pub record AudioBufferFillRequest : Type 0 where
  pub frames_to_request : ℕ
  pub silence_only : Bool

-- The sum of two uint32_t wraps; `max(1, sample_rate / 100)` is at least 1 for every rate.
pub frames_at_hand : AudioBufferFillContext → ℕ
frames_at_hand c =
    min c.available_frames
      ((c.active_remaining_frames + min (pos_part c.queued_frames) (2 ^ 32 - 1)) % 2 ^ 32)

pub plan : AudioBufferFillContext → AudioBufferFillRequest
unfolding frames_at_hand
plan c =
    if c.available_frames == 0
    then record { frames_to_request = 0; silence_only = false }
    else if frames_at_hand c == 0
    then record {
      frames_to_request = min c.available_frames (max 1 (pos_part c.sample_rate / 100));
      silence_only = true;
    }
    else record { frames_to_request = frames_at_hand c; silence_only = false }
