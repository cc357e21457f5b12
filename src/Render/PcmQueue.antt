-- ===== src/Render/PcmQueue.antt =====
-- src/render/audio/audio_pcm_queue.cpp: the decoded sound that waits for the device, and the time line of
-- what the device was given. The queue itself is of a library: `Storage` is what the code uses of it. Each
-- operation holds a mutex and is one step; the counters are read only as they are, so a negative count
-- stays negative.
pub mod Accounting
pub mod TimeLine
pub mod History
pub mod Played
mod Examples
use video_pipeline.Base.{
  ℕ, ◌+◌, ◌-◌, ◌*◌, ◌/◌, ◌<◌, Bool, true, false, not, ◌&&◌, ◌||◌, ◌%◌, ◌^◌, ◌≡◌, List, [], ◌∷◌,
  ◌++◌, Option, none, some, ltb, leb, ◌==◌, if◌then◌else◌, zero, suc, max,
}
use mathlib.Core.List.{Perm}
use video_pipeline.Base.Int.{ℤ, pos, negsuc, pos_part, ◌+ℤ◌, ◌-ℤ◌, ltb_ℤ, eqb_ℤ}
use video_pipeline.Media.Bitstream.{is_empty}
use video_pipeline.Mediaflow.Timing.{int64_max, no_timestamp}

pub record PcmChunk : Type 0 where
  pub content : List ℕ
  pub nb_samples : ℕ
  pub pts_us : ℤ
  pub duration_us : ℤ

-- The library's queue: what it holds, in some order; enqueue may fail for want of memory, and try_dequeue
-- fails only on an empty queue.
pub record Storage (Q : Type 0) : Type 0 where
  pub empty : Q
  pub enqueue : Q → PcmChunk → Option Q
  pub try_dequeue : Q → Option (PcmChunk × Q)
  pub contents : Q → List PcmChunk
  pub empty-contents : contents empty ≡ []
  pub enqueue-contents :
      (q : Q) (c : PcmChunk) {q' : Q} → enqueue q c ≡ some q' → Perm (contents q') (c ∷ contents q)
  pub try_dequeue-contents :
      (q : Q) {c : PcmChunk} {q' : Q}
      → try_dequeue q ≡ some (c, q')
      → Perm (contents q) (c ∷ contents q')
  pub try_dequeue-none : (q : Q) → try_dequeue q ≡ none → contents q ≡ []

-- The counters of frames and chunks, without bounds.
pub record Counters : Type 0 where
  pub submitted_frames : ℤ
  pub queued_frames : ℤ
  pub queued_chunks : ℤ
  pub dropped_frames : ℤ
  pub dropped_chunks : ℤ
  pub underruns : ℤ

abbrev pub no_counters : Counters
no_counters = record {
  submitted_frames = pos 0;
  queued_frames = pos 0;
  queued_chunks = pos 0;
  dropped_frames = pos 0;
  dropped_chunks = pos 0;
  underruns = pos 0;
}

pub record DeviceTimelineSegment : Type 0 where
  pub start_frame : ℕ
  pub end_frame : ℕ
  pub pts_us : ℤ
  pub has_media_pts : Bool

pub record AudioPcmQueue (Q : Type 0) : Type 0 where
  pub queue : Option Q
  pub capacity_chunks : ℕ
  pub counters : Counters
  pub device_written_frames : ℕ
  pub device_timeline : List DeviceTimelineSegment
  pub last_played_pts_us : ℤ
  pub has_last_played_pts : Bool

abbrev frames : PcmChunk → ℤ
frames chunk = pos chunk.nb_samples

unfoldable pub drop_queued_chunk_stats : Counters → PcmChunk → Counters
drop_queued_chunk_stats c chunk = record c {
  dropped_frames = c.dropped_frames +ℤ frames chunk;
  dropped_chunks = c.dropped_chunks +ℤ pos 1;
  queued_frames = c.queued_frames -ℤ frames chunk;
  queued_chunks = c.queued_chunks -ℤ pos 1;
}

unfoldable pub drop_unqueued_chunk_stats : Counters → PcmChunk → Counters
drop_unqueued_chunk_stats c chunk = record c {
  dropped_frames = c.dropped_frames +ℤ frames chunk;
  dropped_chunks = c.dropped_chunks +ℤ pos 1;
}

abbrev pub submit : Counters → PcmChunk → Counters
submit c chunk = record c { submitted_frames = c.submitted_frames +ℤ frames chunk }

-- The segment behind the others, or the silence before it made longer.
pub add_segment : List DeviceTimelineSegment → DeviceTimelineSegment → List DeviceTimelineSegment
add_segment [] segment = segment ∷ []
add_segment (x ∷ []) segment =
    if not segment.has_media_pts && not x.has_media_pts && x.end_frame == segment.start_frame
    then record x { end_frame = segment.end_frame } ∷ []
    else x ∷ segment ∷ []
add_segment (x ∷ y ∷ xs) segment = x ∷ add_segment (y ∷ xs) segment

-- The segments that are not wholly played, and at least one.
pub drop_played : ℕ → List DeviceTimelineSegment → List DeviceTimelineSegment
drop_played played [] = []
drop_played played (x ∷ []) = x ∷ []
drop_played played (x ∷ y ∷ xs) =
    let later = drop_played played (y ∷ xs) in if leb y.end_frame played then later else x ∷ y ∷ xs

pub find_segment : ℕ → List DeviceTimelineSegment → Option DeviceTimelineSegment
find_segment played [] = none
find_segment played (x ∷ xs) =
    let later = find_segment played xs in if ltb played x.end_frame then some x else later

-- The time from a frame on; the sample rate is positive.
abbrev pub offset_us : ℕ → ℕ → ℤ
offset_us offset_frames sample_rate =
    if ltb (9_223_372_036_854_775_807 / 1_000_000) offset_frames
    then int64_max
    else pos (offset_frames * 1_000_000 / sample_rate)

module _ {Q : Type 0} (storage : Storage Q) where
  abbrev pub new_queue : Option Q → ℕ → AudioPcmQueue Q
  new_queue queue capacity_chunks = record {
    queue = queue;
    capacity_chunks = capacity_chunks;
    counters = no_counters;
    device_written_frames = 0;
    device_timeline = [];
    last_played_pts_us = pos 0;
    has_last_played_pts = false;
  }

  abbrev pub reset : ℕ → AudioPcmQueue Q
  reset capacity_chunks = new_queue (some storage.empty) (max 2 capacity_chunks)

  abbrev pub clear : AudioPcmQueue Q
  clear = new_queue none 0

  -- The loop of Enqueue that makes room; each round takes a chunk off the count.
  unfoldable pub make_room : ℕ → ℕ → Q → Counters → Q × Counters
  unfolding drop_queued_chunk_stats
  make_room zero capacity q c = (q, c)
  make_room (suc fuel) capacity q c =
      if ltb_ℤ c.queued_chunks (pos capacity) then (q, c) else elim (storage.try_dequeue q) [
        | none ↦ (q, c)
        | some (chunk, q') ↦ make_room fuel capacity q' (drop_queued_chunk_stats c chunk)
      ]

  -- What follows the library's enqueue.
  unfoldable pub count_pushed : Q → Counters → PcmChunk → Option Q → Q × Counters
  unfolding drop_unqueued_chunk_stats
  count_pushed q c chunk none = (q, drop_unqueued_chunk_stats c chunk)
  count_pushed q c chunk (some q') = (
    q',
    record c {
      queued_frames = c.queued_frames +ℤ frames chunk;
      queued_chunks = c.queued_chunks +ℤ pos 1;
    },
  )

  -- Enqueue on a queue that is there.
  unfoldable pub enqueue_into : AudioPcmQueue Q → Q → PcmChunk → AudioPcmQueue Q
  unfolding make_room count_pushed
  enqueue_into s q chunk =
      let c = submit s.counters chunk in
      let (q1, c1) = make_room (suc (pos_part c.queued_chunks)) s.capacity_chunks q c in
      let (q2, c2) = count_pushed q1 c1 chunk (storage.enqueue q1 chunk) in
      record s { queue = some q2; counters = c2 }

  unfoldable pub enqueue_on : AudioPcmQueue Q → PcmChunk → Option Q → AudioPcmQueue Q
  unfolding enqueue_into drop_unqueued_chunk_stats
  enqueue_on s chunk none = record s {
    counters = drop_unqueued_chunk_stats (submit s.counters chunk) chunk;
  }
  enqueue_on s chunk (some q) = enqueue_into s q chunk

  -- The result is always true.
  unfoldable pub enqueue : AudioPcmQueue Q → PcmChunk → AudioPcmQueue Q
  unfolding enqueue_on
  enqueue s chunk = enqueue_on s chunk s.queue

  unfoldable pub pop_from :
      AudioPcmQueue Q → Option (PcmChunk × Q) → Option PcmChunk × AudioPcmQueue Q
  pop_from s none = (none, s)
  pop_from s (some (chunk, q)) = (
    some chunk,
    record s {
      queue = some q;
      counters = record s.counters {
        queued_frames = s.counters.queued_frames -ℤ frames chunk;
        queued_chunks = s.counters.queued_chunks -ℤ pos 1;
      };
    },
  )

  unfoldable pub pop_on : AudioPcmQueue Q → Option Q → Option PcmChunk × AudioPcmQueue Q
  unfolding pop_from
  pop_on s none = (none, s)
  pop_on s (some q) = pop_from s (storage.try_dequeue q)

  unfoldable pub pop : AudioPcmQueue Q → Option PcmChunk × AudioPcmQueue Q
  unfolding pop_on
  pop s = pop_on s s.queue

  unfoldable pub add_underrun : AudioPcmQueue Q → AudioPcmQueue Q
  add_underrun s = record s {
    counters = record s.counters { underruns = s.counters.underruns +ℤ pos 1 };
  }

  abbrev pub queued_frames : AudioPcmQueue Q → ℤ
  queued_frames s =
      if ltb_ℤ (pos 0) s.counters.queued_frames then s.counters.queued_frames else pos 0

module _ {Q : Type 0} where
  pub record_device_frames : AudioPcmQueue Q → ℕ → ℤ → Bool → AudioPcmQueue Q
  unfolding add_segment
  record_device_frames s count pts_us has_media_pts =
      let end_frame = (s.device_written_frames + count) % 2 ^ 64 in
      if count == 0 then s else record s {
        device_timeline = add_segment s.device_timeline (record {
          start_frame = s.device_written_frames;
          end_frame = end_frame;
          pts_us = pts_us;
          has_media_pts = has_media_pts;
        });
        device_written_frames = end_frame;
      }

  pub record_device_media_frames : AudioPcmQueue Q → ℕ → ℤ → AudioPcmQueue Q
  unfolding record_device_frames
  record_device_media_frames s count pts_us =
      record_device_frames s count pts_us (not (eqb_ℤ pts_us no_timestamp))

  pub record_device_silence_frames : AudioPcmQueue Q → ℕ → AudioPcmQueue Q
  unfolding record_device_frames
  record_device_silence_frames s count = record_device_frames s count no_timestamp false

  abbrev last_played : AudioPcmQueue Q → ℤ × AudioPcmQueue Q
  last_played s = (if s.has_last_played_pts then s.last_played_pts_us else no_timestamp, s)

  -- The part of PlayedPtsUs behind the search for the segment.
  played_in : AudioPcmQueue Q → ℕ → ℕ → Option DeviceTimelineSegment → ℤ × AudioPcmQueue Q
  played_in s sample_rate played none = last_played s
  played_in s sample_rate played (some segment) =
      let offset = offset_us (played - segment.start_frame) sample_rate in
      let pts =
        if ltb_ℤ (int64_max -ℤ offset) segment.pts_us
        then int64_max
        else segment.pts_us +ℤ offset in
      if not segment.has_media_pts
      then last_played s
      else (pts, record s { last_played_pts_us = pts; has_last_played_pts = true })

  pub played_pts_us : AudioPcmQueue Q → ℤ → ℤ → ℤ × AudioPcmQueue Q
  unfolding drop_played find_segment played_in
  played_pts_us s sample_rate padding_frames =
      let played = s.device_written_frames - pos_part padding_frames in
      let kept = drop_played played s.device_timeline in
      if not (ltb_ℤ (pos 0) sample_rate) || is_empty s.device_timeline
      then (no_timestamp, s)
      else played_in (record s { device_timeline = kept }) (pos_part sample_rate) played
          (find_segment played kept)
