-- ===== src/Render/PcmQueue/History.antt =====
-- AudioPcmQueue: what the device was given, and a time line that tells the same.
use video_pipeline.Base.{
  ℕ, ◌+◌, ◌-◌, ◌%◌, ◌^◌, ◌≤◌, ◌<◌, ◌≡◌, refl, ap, sym, subst, ◌∙◌, inl, inr, Bool, true, false, not,
  List, [], ◌∷◌, ◌++◌, Option, none, some, arith, ltb, ltb→lt, ltb-false→le, if◌then◌else◌,
  Bool-cases, max,
}
use video_pipeline.Base.Int.{ℤ, pos_part, eqb_ℤ}
use video_pipeline.Mediaflow.Timing.{no_timestamp}
use video_pipeline.Render.PcmQueue.{DeviceTimelineSegment, add_segment, drop_played, find_segment}
use video_pipeline.Render.PcmQueue.TimeLine.{
  Tiled, add_segment-Tiled, drop_played-Tiled, place, add_segment-before, add_segment-inside,
  find_segment-drop_played,
}

-- What is done about the device: frames of a sound or of silence are written, or the time that is playing is
-- asked for, with a sample rate and the frames that are still in the device.
pub data Event : Type 0 where
  media : (count : ℕ) (pts_us : ℤ) → Event
  silence : (count : ℕ) → Event
  asks : (sample_rate padding_frames : ℤ) → Event

-- Frames that the device was given: how many, and at which time if they have one.
pub record Written : Type 0 where
  pub count : ℕ
  pub at_us : ℤ
  pub has_time : Bool

abbrev pub history : List Event → List Written
history [] = []
history (media count pts_us ∷ es) =
    record { count = count; at_us = pts_us; has_time = not (eqb_ℤ pts_us no_timestamp) }
    ∷ history es
history (silence count ∷ es) =
    record { count = count; at_us = no_timestamp; has_time = false } ∷ history es
history (asks sample_rate padding_frames ∷ es) = history es

abbrev pub total : List Written → ℕ
total [] = 0
total (w ∷ ws) = w.count + total ws

-- The time of the writing that a frame came with, and how far the frame is in it.
abbrev pub frame_time : List Written → ℕ → Option (ℤ × ℕ)
frame_time [] n = none
frame_time (w ∷ ws) n =
    let later = frame_time ws (n - w.count) in
    if ltb n w.count then (if w.has_time then some (w.at_us, n) else none) else later

-- No question is about a frame behind `top`; `k` frames are written before.
abbrev pub Behind : ℕ → ℕ → List Event → Type 0
Behind top k [] = Unit
Behind top k (media count pts_us ∷ es) = Behind top (k + count) es
Behind top k (silence count ∷ es) = Behind top (k + count) es
Behind top k (asks sample_rate padding_frames ∷ es) =
    (k - pos_part padding_frames ≤ top) × Behind top k es

pub total-append : (ws vs : List Written) → total (ws ++ vs) ≡ total ws + total vs
total-append [] vs = omega arith
total-append (w ∷ ws) vs = omega (arith, total-append ws vs)

frame_time-before :
    (ws : List Written) (w : Written) (n : ℕ)
    → n < total ws
    → frame_time (ws ++ w ∷ []) n ≡ frame_time ws n
frame_time-before [] w n h = absurd (omega arith)
frame_time-before (v ∷ ws) w n h = elim (Bool-cases (ltb n v.count)) [
  | inl m ↦ rw m refl
  | inr m ↦ rw m (frame_time-before ws w (n - v.count) (omega (arith, h, ltb-false→le _ _ m)))
]

frame_time-inside :
    (ws : List Written) (w : Written) (n : ℕ)
    → total ws ≤ n
    → n < total ws + w.count
    → frame_time (ws ++ w ∷ []) n ≡ (if w.has_time then some (w.at_us, n - total ws) else none)
frame_time-inside [] w n low high =
    let inside : ltb n w.count ≡ true = ground arith in
    let same : n ≡ n - 0 = omega arith in
    rw inside (ap (λ k. if w.has_time then some (w.at_us, k) else none) same)
frame_time-inside (v ∷ ws) w n low high =
    let behind : ltb n v.count ≡ false = ground arith in
    let rest : n - v.count - total ws ≡ n - (v.count + total ws) = omega arith in
    rw behind (
      frame_time-inside ws w (n - v.count) (omega (arith, low)) (omega (arith, low, high))
      ∙ ap (λ k. if w.has_time then some (w.at_us, k) else none) rest)

-- From a frame on, which is not behind `top`, a time line tells what the history does.
pub record Tells (top : ℕ) (ws : List Written) (frames : ℕ) (timeline : List DeviceTimelineSegment)
    : Type 0 where
  pub first : ℕ
  pub begin : ℕ
  pub first_low : first ≤ begin
  pub begin_low : begin ≤ top
  pub counted : frames ≡ total ws
  pub tiled : Tiled first timeline (total ws)
  pub told :
      (n : ℕ) → begin ≤ n → n < total ws → place n (find_segment n timeline) ≡ frame_time ws n

-- Writing nothing.
pub nothing-Tells :
    (top : ℕ) (ws : List Written) (frames : ℕ) (timeline : List DeviceTimelineSegment) (w : Written)
    → w.count ≡ 0
    → Tells top ws frames timeline
    → Tells top (ws ++ w ∷ []) frames timeline
nothing-Tells top ws frames timeline w z t =
    let same : total ws ≡ total (ws ++ w ∷ []) = omega (arith, z, total-append ws (w ∷ [])) in
    record {
      first = t.first;
      begin = t.begin;
      first_low = t.first_low;
      begin_low = t.begin_low;
      counted = t.counted ∙ same;
      tiled = subst (Tiled t.first timeline) same t.tiled;
      told = λ n low high.
          let high' : n < total ws = omega (arith, high, same) in
          t.told n low high' ∙ sym (frame_time-before ws w n high');
    }

abbrev segment_of : ℕ → Written → DeviceTimelineSegment
segment_of frames w = record {
  start_frame = frames;
  end_frame = (frames + w.count) % 2 ^ 64;
  pts_us = w.at_us;
  has_media_pts = w.has_time;
}

pub added-Tells :
    (top : ℕ) (ws : List Written) (frames : ℕ) (timeline : List DeviceTimelineSegment) (w : Written)
    → 1 ≤ w.count
    → total ws + w.count < 2 ^ 64
    → Tells top ws frames timeline
    → Tells top
        (ws ++ w ∷ [])
        ((frames + w.count) % 2 ^ 64)
        (add_segment timeline (segment_of frames w))
added-Tells top ws frames timeline w some_frames small t =
    let x = segment_of frames w in
    let all = total-append ws (w ∷ []) in
    let end : x.end_frame ≡ total (ws ++ w ∷ []) = omega (arith, all, small, t.counted) in
    let longer : total ws < x.end_frame = omega (arith, all, end, some_frames) in
    record {
      first = t.first;
      begin = t.begin;
      first_low = t.first_low;
      begin_low = t.begin_low;
      counted = end;
      tiled =
          subst (Tiled t.first (add_segment timeline x)) end
            (add_segment-Tiled t.first (total ws) timeline x t.tiled t.counted longer);
      told = λ n low high. elim (Bool-cases (ltb n (total ws))) [
        | inl m ↦
            let before = ltb→lt _ _ m in
            add_segment-before t.first (total ws) n timeline x t.tiled
              (omega (arith, low, t.first_low)) before longer
            ∙ t.told n low before
            ∙ sym (frame_time-before ws w n before)
        | inr m ↦
            let behind = ltb-false→le _ _ m in
            add_segment-inside t.first (total ws) n timeline x t.tiled behind
              (omega (arith, high, end))
            ∙ ap (λ k. if w.has_time then some (w.at_us, n - k) else none) t.counted
            ∙ sym (frame_time-inside ws w n behind (omega (arith, high, all)))
      ];
    }

pub dropped-Tells :
    (top : ℕ) (ws : List Written) (frames played : ℕ) (timeline : List DeviceTimelineSegment)
    → played ≤ top
    → Tells top ws frames timeline
    → Tells top ws frames (drop_played played timeline)
dropped-Tells top ws frames played timeline low t =
    let (first, _, kind, kept) = drop_played-Tiled t.first (total ws) played timeline t.tiled in
    record {
      first = first;
      begin = max t.begin played;
      first_low = elim kind [ inl h ↦ omega (arith, h) | inr h ↦ omega (arith, h, t.first_low) ];
      begin_low = omega (arith, t.begin_low, low);
      counted = t.counted;
      tiled = kept;
      told = λ n from high.
          ap (place n) (
            find_segment-drop_played t.first (total ws) played n timeline t.tiled
              (omega (arith, from)))
          ∙ t.told n (omega (arith, from)) high;
    }
