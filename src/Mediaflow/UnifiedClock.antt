-- ===== src/Mediaflow/UnifiedClock.antt =====
-- UnifiedClock of src/mediaflow/media_timing.cpp: the media time that the tracks of the media graph
-- share. Each call of `SteadyClock::now()` is an argument, in nanoseconds since the clock's epoch; the
-- mutex makes each operation one step.
pub mod Generations
pub mod Refinement
mod Examples
use video_pipeline.Base.{
  ℕ, ◌+◌, ◌-◌, ◌/◌, ◌%◌, ◌^◌, Bool, true, false, not, ◌&&◌, ◌||◌, ◌==◌, if◌then◌else◌,
}
use video_pipeline.Base.Int.{ℤ, pos, eqb_ℤ}
use video_pipeline.Mediaflow.Timing.{no_timestamp, saturating_add}

pub data ClockSource : Type 0 where
  system audio : ClockSource

pub record ClockSnapshot : Type 0 where
  pub position_us : ℤ
  pub source : ClockSource
  pub generation : ℕ
  pub discontinuity : ℕ
  pub valid : Bool

pub record UnifiedClock : Type 0 where
  pub reference_time : ℕ
  pub reference_position_us : ℤ
  pub audio_position_us : ℤ
  pub generation : ℕ
  pub discontinuity : ℕ
  pub running : Bool
  pub paused : Bool
  pub has_audio_position : Bool

-- `++` on a uint64_t counter.
abbrev pub next_count : ℕ → ℕ
next_count n = (n + 1) % 2 ^ 64

abbrev pub new_clock : ℕ → UnifiedClock
new_clock now = record {
  reference_time = now;
  reference_position_us = pos 0;
  audio_position_us = pos 0;
  generation = 0;
  discontinuity = 0;
  running = false;
  paused = false;
  has_audio_position = false;
}

-- A time before the reference counts as no time elapsed.
unfoldable pub system_position_us_locked : UnifiedClock → ℕ → ℤ
system_position_us_locked c now =
    if not c.running || c.paused
    then c.reference_position_us
    else saturating_add c.reference_position_us (pos ((now - c.reference_time) / 1000))

unfoldable pub start : UnifiedClock → ℕ → ℤ → ℕ → UnifiedClock
start c generation start_pts_us now = record c {
  generation = generation;
  reference_position_us = start_pts_us;
  reference_time = now;
  running = true;
  paused = false;
  has_audio_position = false;
  audio_position_us = pos 0;
}

-- The clock is read twice: for the position, and for the new reference.
unfoldable pub pause : UnifiedClock → ℕ → ℕ → UnifiedClock
unfolding system_position_us_locked
pause c now now_again = if not c.running || c.paused then c else record c {
  reference_position_us = system_position_us_locked c now;
  reference_time = now_again;
  paused = true;
}

unfoldable pub resume : UnifiedClock → ℕ → UnifiedClock
resume c now =
    if not c.running || not c.paused then c else record c { reference_time = now; paused = false }

unfoldable pub reset : UnifiedClock → ℕ → ℤ → ℕ → UnifiedClock
reset c generation position_us now = record {
  generation = generation;
  reference_position_us = position_us;
  reference_time = now;
  running = false;
  paused = false;
  has_audio_position = false;
  audio_position_us = pos 0;
  discontinuity = next_count c.discontinuity;
}

unfoldable pub notify_discontinuity : UnifiedClock → ℕ → ℤ → ℕ → UnifiedClock
notify_discontinuity c generation position_us now = record {
  generation = generation;
  reference_position_us = position_us;
  reference_time = now;
  running = true;
  paused = false;
  has_audio_position = false;
  audio_position_us = pos 0;
  discontinuity = next_count c.discontinuity;
}

unfoldable pub set_system_position_us : UnifiedClock → ℤ → ℕ → UnifiedClock
set_system_position_us c position_us now = record c {
  reference_position_us = position_us;
  reference_time = now;
}

-- The fields that a change of the generation sets are set again behind it, but for these two.
abbrev switch_generation : UnifiedClock → ℕ → UnifiedClock
switch_generation c generation =
    if generation == c.generation
    then c
    else record c { generation = generation; discontinuity = next_count c.discontinuity }

unfoldable pub update_audio_position : UnifiedClock → ℕ → ℤ → ℕ → UnifiedClock
update_audio_position c generation audio_pts_us now =
    if eqb_ℤ audio_pts_us no_timestamp then c else record (switch_generation c generation) {
      audio_position_us = audio_pts_us;
      has_audio_position = true;
      reference_position_us = audio_pts_us;
      reference_time = now;
      running = true;
      paused = false;
    }

unfoldable pub snapshot : UnifiedClock → Bool → ℕ → ClockSnapshot
unfolding system_position_us_locked
snapshot c prefer_audio now =
    if prefer_audio && c.has_audio_position
    then record {
      position_us = c.audio_position_us;
      source = audio;
      generation = c.generation;
      discontinuity = c.discontinuity;
      valid = true;
    }
    else record {
      position_us = system_position_us_locked c now;
      source = system;
      generation = c.generation;
      discontinuity = c.discontinuity;
      valid = c.running || c.has_audio_position;
    }

abbrev pub is_running : UnifiedClock → Bool
is_running c = c.running && not c.paused
