-- ===== src/Mediaflow/Interleaver.antt =====
-- DtsInterleaver of src/mediaflow/media_timing.cpp: the packets of several tracks in decoding order.
-- A member function returns the packets it outputs and the next state. `MediaPacket` keeps the fields
-- that the media graph reads; the handle of the backend is an opaque pointer.
pub mod Loop
pub mod Conservation
pub mod Order
mod Examples
use video_pipeline.Base.{
  ℕ, zero, suc, ◌<◌, max, Bool, true, false, not, ◌&&◌, ◌||◌, List, [], ◌∷◌, ◌++◌, Option, none,
  some, ltb, leb, ◌==◌, if◌then◌else◌, length,
}
use video_pipeline.Base.Int.{ℤ, pos, ltb_ℤ}
use video_pipeline.Mediaflow.Timing.{saturating_subtract, non_negative}

pub record Rational : Type 0 where
  pub num : ℤ
  pub den : ℤ

pub record MediaPacket : Type 0 where
  pub stream_index : ℤ
  pub pts : ℤ
  pub dts : ℤ
  pub duration : ℤ
  pub time_base : Rational
  pub keyframe : Bool
  pub buffer : Option (List ℕ)

pub record MediaTiming : Type 0 where
  pub pts_us : ℤ
  pub dts_us : ℤ
  pub duration_us : ℤ
  pub pts_valid : Bool
  pub dts_valid : Bool
  pub duration_valid : Bool

-- A null packet is `none`. The description of the track is carried along and never read.
pub record DtsPacket : Type 0 where
  pub packet : Option MediaPacket
  pub timing : MediaTiming
  pub track_id : ℤ
  pub generation : ℕ

pub record DtsInterleaverConfig : Type 0 where
  pub max_pending_packets : ℕ
  pub max_pending_span_us : ℤ

pub record DtsInterleaver : Type 0 where
  pub config : DtsInterleaverConfig
  pub pending : List DtsPacket
  pub generation : ℕ

abbrev pub is_null : Option MediaPacket → Bool
is_null none = true
is_null (some _) = false

abbrev pub dts_of : DtsPacket → ℤ
dts_of p = p.timing.dts_us

-- The first of the packets with the least DTS, and the others in their order: min_element and erase.
pub take_earliest : DtsPacket → List DtsPacket → DtsPacket × List DtsPacket
take_earliest x [] = (x, [])
take_earliest x (y ∷ ys) =
    let (first, rest) = take_earliest y ys in
    if ltb_ℤ (dts_of first) (dts_of x) then (first, x ∷ rest) else (x, y ∷ ys)

-- The DTS of the packet that max_element gives.
pub latest_dts : DtsPacket → List DtsPacket → ℤ
latest_dts x [] = dts_of x
latest_dts x (y ∷ ys) =
    let last = latest_dts y ys in if ltb_ℤ (dts_of x) last then last else dts_of x

pub over_count : DtsInterleaverConfig → List DtsPacket → Bool
over_count config pending = ltb (max 1 config.max_pending_packets) (length pending)

pub over_span : DtsInterleaverConfig → DtsPacket → List DtsPacket → Bool
unfolding take_earliest latest_dts
over_span config x xs =
    ltb_ℤ (pos 0) config.max_pending_span_us
    && not (
        ltb_ℤ (saturating_subtract (latest_dts x xs) (dts_of (take_earliest x xs).0))
          config.max_pending_span_us)

-- EmitReady: what it outputs, and the packets that stay. The fuel is their number.
pub emit_loop : ℕ → DtsInterleaverConfig → Bool → List DtsPacket → List DtsPacket × List DtsPacket
unfolding over_count over_span take_earliest
emit_loop zero config force pending = ([], pending)
emit_loop (suc fuel) config force [] = ([], [])
emit_loop (suc fuel) config force (x ∷ xs) =
    let (first, rest) = take_earliest x xs in
    let (more, left) = emit_loop fuel config force rest in
    if not force && not (over_count config (x ∷ xs)) && not (over_span config x xs)
    then ([], x ∷ xs)
    else if not force && leb (length rest) 1
    then (first ∷ [], rest)
    else (first ∷ more, left)

unfoldable pub emit_ready : DtsInterleaver → Bool → List DtsPacket × DtsInterleaver
unfolding emit_loop
emit_ready s force =
    let (output, left) = emit_loop (length s.pending) s.config force s.pending in
    (output, record s { pending = left })

unfoldable pub set_config : DtsInterleaver → DtsInterleaverConfig → DtsInterleaver
set_config s config = record s {
  config = record {
    max_pending_packets = if config.max_pending_packets == 0 then 1 else config.max_pending_packets;
    max_pending_span_us = non_negative config.max_pending_span_us;
  };
}

-- The constructor.
unfoldable pub create : DtsInterleaverConfig → DtsInterleaver
unfolding set_config
create config = set_config (record { config = config; pending = []; generation = 0 }) config

unfoldable pub reset : DtsInterleaver → ℕ → DtsInterleaver
reset s generation = record s { pending = []; generation = generation }

unfoldable pub flush : DtsInterleaver → List DtsPacket × DtsInterleaver
unfolding emit_ready
flush s = let (output, t) = emit_ready s true in (output, record t { generation = 0 })

-- Push on a packet of the running generation. A packet without a DTS follows the ones that wait.
pub push_current : DtsInterleaver → DtsPacket → List DtsPacket × DtsInterleaver
unfolding emit_ready
push_current s item =
    if not item.timing.dts_valid
    then (let (output, t) = emit_ready s true in (output ++ item ∷ [], t))
    else emit_ready (record s { pending = s.pending ++ item ∷ [] }) false

-- Push on a packet that is not null.
pub push_item : DtsInterleaver → DtsPacket → List DtsPacket × DtsInterleaver
unfolding flush push_current
push_item s item =
    let (flushed, t) : List DtsPacket × DtsInterleaver =
      if not (s.generation == 0) && not (item.generation == s.generation)
      then flush s
      else ([], s) in
    let u = record t { generation = if t.generation == 0 then item.generation else t.generation } in
    let (output, v) = push_current u item in (flushed ++ output, v)

unfoldable pub push : DtsInterleaver → DtsPacket → List DtsPacket × DtsInterleaver
unfolding push_item
push s item = if is_null item.packet then ([], s) else push_item s item

abbrev pub pending_size : DtsInterleaver → ℕ
pending_size s = length s.pending
