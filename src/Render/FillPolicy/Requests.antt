-- ===== src/Render/FillPolicy/Requests.antt =====
-- AudioBufferFillPolicy: what a plan asks for.
use video_pipeline.Base.{◌+◌, ◌^◌, ◌≤◌, ◌<◌, ◌≡◌, ◌⊎◌, min, true, false, arith}
use video_pipeline.Base.Int.{pos_part}
use video_pipeline.Render.FillPolicy.{AudioBufferFillContext, frames_at_hand, plan}

-- While the frames at hand and the room in the device are counts below 2 ^ 32: where there is room, a
-- plan asks for at least one frame and no more than fit, and it asks for silence exactly when no
-- frame is at hand; else it asks for no more than are at hand, and for all of them if they fit.
pub plan_lem :
    (c : AudioBufferFillContext)
    → 1 ≤ c.available_frames
    → c.active_remaining_frames + pos_part c.queued_frames < 2 ^ 32
    → let r = plan c in
      let at_hand = c.active_remaining_frames + pos_part c.queued_frames in
      (1 ≤ r.frames_to_request)
      × (r.frames_to_request ≤ c.available_frames)
      × (((r.silence_only ≡ true) × (at_hand ≡ 0))
          ⊎ ((r.silence_only ≡ false) × (r.frames_to_request ≡ min c.available_frames at_hand)))
unfolding plan frames_at_hand
plan_lem c room small = ground arith

-- A defect: the frames at hand are added in 32 bits, so where the active frame and the queue hold
-- 2 ^ 32 frames together, the plan asks for silence although there is sound to play.
pub plan_wraps :
    (c : AudioBufferFillContext)
    → 1 ≤ c.available_frames
    → 1 ≤ c.active_remaining_frames
    → c.active_remaining_frames + pos_part c.queued_frames ≡ 2 ^ 32
    → (plan c).silence_only ≡ true
unfolding plan frames_at_hand
plan_wraps c room active full = ground arith
