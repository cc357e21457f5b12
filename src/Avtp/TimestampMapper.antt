-- ===== src/Avtp/TimestampMapper.antt =====
-- src/media/protocol/avtp/avtp_timestamp_mapper.cpp: the 32-bit AVTP time on the capture time line.
-- An int64_t is an integer without bounds: microseconds and nanoseconds of a session stay far below
-- 2 ^ 63. `unordered_map` is an association list in the order of insertion.
pub mod Nearest
pub mod Timeline
mod Examples
use video_pipeline.Base.{
  ℕ, ◌+◌, ◌-◌, ◌*◌, ◌/◌, ◌%◌, ◌^◌, Bool, true, false, not, ◌&&◌, ◌||◌, List, [], ◌∷◌, Option, none,
  some, ltb, leb, ◌==◌, if◌then◌else◌,
}
use video_pipeline.Base.Int.{
  ℤ, pos, negsuc, pos_part, neg_part, sub_ℕ, ◌+ℤ◌, ◌-ℤ◌, ◌*ℤ◌, ltb_ℤ, abs_difference,
}

abbrev pub timestamp_modulo : ℕ
timestamp_modulo = 2 ^ 32

-- Division of C++, which truncates towards 0.
pub trunc_div : ℤ → ℕ → ℤ
trunc_div (pos n) d = pos (n / d)
trunc_div (negsuc n) d = sub_ℕ 0 ((n + 1) / d)

pub floor_div : ℤ → ℕ → ℤ
unfolding trunc_div
floor_div value divisor =
    if not ((pos_part value + neg_part value) % divisor == 0) && ltb_ℤ value (pos 0)
    then trunc_div value divisor -ℤ pos 1
    else trunc_div value divisor

pub expand_nearest : ℕ → ℤ → ℤ
unfolding floor_div
expand_nearest avtp_timestamp predicted_ns =
    let cycle = floor_div predicted_ns timestamp_modulo in
    let candidate = cycle *ℤ pos timestamp_modulo +ℤ pos avtp_timestamp in
    let previous = candidate -ℤ pos timestamp_modulo in
    let next = candidate +ℤ pos timestamp_modulo in
    let nearer =
      if ltb_ℤ (abs_difference previous predicted_ns) (abs_difference candidate predicted_ns)
      then previous
      else candidate in
    if ltb_ℤ (abs_difference next predicted_ns) (abs_difference nearer predicted_ns)
    then next
    else nearer

pub record MapperStats : Type 0 where
  pub mapped_timestamps : ℕ
  pub invalid_fallbacks : ℕ
  pub uncertain_fallbacks : ℕ
  pub media_clock_restarts : ℕ
  pub discontinuity_resets : ℕ
  pub forward_wraps : ℕ

pub record Mapper : Type 0 where
  pub discontinuity_threshold_us : ℕ
  pub stats : MapperStats
  pub initialized : Bool
  pub anchor_avtp_ns : ℤ
  pub anchor_capture_us : ℤ
  pub last_extended_avtp_ns : ℤ
  pub media_clock_restart_bits : List (ℕ × Bool)

abbrev no_mapper_stats : MapperStats
no_mapper_stats = record {
  mapped_timestamps = 0;
  invalid_fallbacks = 0;
  uncertain_fallbacks = 0;
  media_clock_restarts = 0;
  discontinuity_resets = 0;
  forward_wraps = 0;
}

-- The constructor, which clamps the threshold at 0, and Reset.
unfoldable pub create : ℤ → Mapper
create threshold = record {
  discontinuity_threshold_us = pos_part threshold;
  stats = no_mapper_stats;
  initialized = false;
  anchor_avtp_ns = pos 0;
  anchor_capture_us = pos 0;
  last_extended_avtp_ns = pos 0;
  media_clock_restart_bits = [];
}

pub set_anchor : Mapper → ℕ → ℤ → Mapper
set_anchor s avtp_timestamp capture_timestamp_us = record s {
  anchor_avtp_ns = pos avtp_timestamp;
  anchor_capture_us = capture_timestamp_us;
  last_extended_avtp_ns = pos avtp_timestamp;
  initialized = true;
}

-- `++` on a uint64_t counter.
abbrev count : ℕ → ℕ
count n = (n + 1) % 2 ^ 64

abbrev same_bit : Bool → Bool → Bool
same_bit true b = b
same_bit false b = not b

-- `emplace` and the comparison behind it: whether the bit is new or the old one, and the next map.
pub restart_event : List (ℕ × Bool) → ℕ → Bool → Bool × List (ℕ × Bool)
restart_event [] stream_id bit = (false, (stream_id, bit) ∷ [])
restart_event ((id, old) ∷ bits) stream_id bit =
    let (event, rest) = restart_event bits stream_id bit in
    if id == stream_id
    then (not (same_bit old bit), (id, bit) ∷ bits)
    else (event, (id, old) ∷ rest)

abbrev anchored : Mapper → ℕ → ℤ → ℤ × Mapper
anchored s avtp_timestamp capture_timestamp_us =
    let t = set_anchor s avtp_timestamp capture_timestamp_us in
    (
      capture_timestamp_us,
      record t { stats = record t.stats { mapped_timestamps = count t.stats.mapped_timestamps } },
    )

pub extended_of : Mapper → ℕ → ℤ → ℤ
extended_of s avtp_timestamp capture_timestamp_us =
    expand_nearest avtp_timestamp
      (s.anchor_avtp_ns +ℤ (capture_timestamp_us -ℤ s.anchor_capture_us) *ℤ pos 1000)

pub mapped_of : Mapper → ℤ → ℤ
unfolding trunc_div
mapped_of s extended = s.anchor_capture_us +ℤ trunc_div (extended -ℤ s.anchor_avtp_ns) 1000

-- The end of Map, for an anchored state.
pub map_anchored : Mapper → ℕ → ℤ → ℤ × Mapper
unfolding extended_of mapped_of set_anchor
map_anchored s avtp_timestamp capture_timestamp_us =
    let extended = extended_of s avtp_timestamp capture_timestamp_us in
    let mapped = mapped_of s extended in
    let previous_cycle = floor_div s.last_extended_avtp_ns timestamp_modulo in
    let current_cycle = floor_div extended timestamp_modulo in
    let wraps =
      if not (ltb_ℤ extended s.last_extended_avtp_ns) && ltb_ℤ previous_cycle current_cycle
      then (s.stats.forward_wraps + pos_part (current_cycle -ℤ previous_cycle)) % 2 ^ 64
      else s.stats.forward_wraps in
    if ltb 0 s.discontinuity_threshold_us
      && ltb_ℤ (pos s.discontinuity_threshold_us) (abs_difference mapped capture_timestamp_us)
    then anchored
        (record s {
          stats = record s.stats { discontinuity_resets = count s.stats.discontinuity_resets };
        })
        avtp_timestamp capture_timestamp_us
    else (
      mapped,
      record s {
        last_extended_avtp_ns = extended;
        stats = record s.stats {
          mapped_timestamps = count s.stats.mapped_timestamps;
          forward_wraps = wraps;
        };
      },
    )

-- Map.
pub map_timestamp : Mapper → ℕ → ℕ → ℤ → Bool → Bool → Bool → ℤ × Mapper
unfolding restart_event map_anchored
map_timestamp s stream_id avtp_timestamp capture_timestamp_us timestamp_valid timestamp_uncertain
      media_clock_restart =
    let (event, bits) = restart_event s.media_clock_restart_bits stream_id media_clock_restart in
    let noted = record s { media_clock_restart_bits = bits } in
    let restarted =
      if s.initialized && event
      then record noted {
        stats = record s.stats { media_clock_restarts = count s.stats.media_clock_restarts };
      }
      else noted in
    if not timestamp_valid
    then (
      capture_timestamp_us,
      record s { stats = record s.stats { invalid_fallbacks = count s.stats.invalid_fallbacks } },
    )
    else if timestamp_uncertain
    then (
      capture_timestamp_us,
      record s {
        stats = record s.stats { uncertain_fallbacks = count s.stats.uncertain_fallbacks };
      },
    )
    else if not s.initialized || event
    then anchored restarted avtp_timestamp capture_timestamp_us
    else map_anchored noted avtp_timestamp capture_timestamp_us
