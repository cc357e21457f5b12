-- ===== src/Render/PlaybackClock.antt =====
-- src/render/playback_clock.cpp and media_clock.cpp: the media time that playback follows.
-- Every call of `SteadyClock::now()` is an argument, in nanoseconds since the clock's epoch. Each section
-- under a mutex is a function of its own; the operations of MediaClock that have two of them run one behind
-- the other.
use video_pipeline.Base.{
  ℕ, ◌-◌, ◌^◌, Option, none, some, ◌/◌, Bool, true, false, not, ◌||◌, ◌&&◌, if◌then◌else◌,
}
use video_pipeline.Base.Int.{ℤ, pos, ◌+ℤ◌, ◌-ℤ◌, ltb_ℤ}
use video_pipeline.Mediaflow.Timing.{int64_max}
use video_pipeline.Render.AvSync.{MediaClockSnapshot, system, audio}

pub record PlaybackClock : Type 0 where
  pub reference_pts_us : ℤ
  pub reference_time : ℕ
  pub running : Bool
  pub paused : Bool

-- The sum of an int64_t and a time that is not negative. Past the range, where C++ leaves it undefined, it
-- wraps around.
unfoldable pub add_int64 : ℤ → ℕ → ℤ
add_int64 a n = if ltb_ℤ int64_max (a +ℤ pos n) then a +ℤ pos n -ℤ pos (2 ^ 64) else a +ℤ pos n

-- PositionUsLocked. A time before the reference counts as no time elapsed.
unfoldable pub position_us : PlaybackClock → ℕ → ℤ
unfolding add_int64
position_us c now =
    if not c.running || c.paused
    then c.reference_pts_us
    else add_int64 c.reference_pts_us ((now - c.reference_time) / 1000)

abbrev pub start : ℤ → ℕ → PlaybackClock
start start_pts_us now = record {
  reference_pts_us = start_pts_us;
  reference_time = now;
  running = true;
  paused = false;
}

-- The clock is read twice: for the position, and for the new reference.
unfoldable pub pause : PlaybackClock → ℕ → ℕ → PlaybackClock
unfolding position_us
pause c now now_again = if not c.running || c.paused then c else record c {
  reference_pts_us = position_us c now;
  reference_time = now_again;
  paused = true;
}

unfoldable pub resume : PlaybackClock → ℕ → PlaybackClock
resume c now =
    if not c.running || not c.paused then c else record c { reference_time = now; paused = false }

abbrev pub reset : ℤ → ℕ → PlaybackClock
reset pts_us now = record {
  reference_pts_us = pts_us;
  reference_time = now;
  running = false;
  paused = false;
}

unfoldable pub set_position_us : PlaybackClock → ℤ → ℕ → PlaybackClock
set_position_us c pts_us now = record c { reference_pts_us = pts_us; reference_time = now }

pub record MediaClock : Type 0 where
  pub fallback_clock : PlaybackClock
  pub last_audio_pts_us : ℤ
  pub has_audio_position : Bool

abbrev pub media_start : MediaClock → ℤ → ℕ → MediaClock
media_start m start_pts_us now = record m { fallback_clock = start start_pts_us now }

pub media_pause : MediaClock → ℕ → ℕ → MediaClock
unfolding pause
media_pause m now now_again = record m { fallback_clock = pause m.fallback_clock now now_again }

pub media_resume : MediaClock → ℕ → MediaClock
unfolding resume
media_resume m now = record m { fallback_clock = resume m.fallback_clock now }

pub set_system_position_us : MediaClock → ℤ → ℕ → MediaClock
unfolding set_position_us
set_system_position_us m pts_us now = record m {
  fallback_clock = set_position_us m.fallback_clock pts_us now;
}

-- The section of Reset under the mutex of MediaClock.
abbrev pub forget_audio_position : MediaClock → MediaClock
forget_audio_position m = record m { last_audio_pts_us = pos 0; has_audio_position = false }

abbrev pub media_reset : MediaClock → ℤ → ℕ → MediaClock
media_reset m pts_us now = forget_audio_position (record m { fallback_clock = reset pts_us now })

-- The section of UpdateAudioPosition under the mutex of MediaClock.
abbrev pub note_audio_position : MediaClock → ℤ → MediaClock
note_audio_position m audio_pts_us = record m {
  last_audio_pts_us = audio_pts_us;
  has_audio_position = true;
}

pub update_audio_position : MediaClock → ℤ → ℕ → MediaClock
unfolding set_system_position_us
update_audio_position m audio_pts_us now =
    if not (ltb_ℤ (pos 0) audio_pts_us)
    then m
    else set_system_position_us (note_audio_position m audio_pts_us) audio_pts_us now

-- The section of Snapshot under the mutex of MediaClock.
abbrev pub audio_snapshot : MediaClock → Bool → Option MediaClockSnapshot
audio_snapshot m prefer_audio =
    if prefer_audio && m.has_audio_position
    then some (record { position_us = m.last_audio_pts_us; source = audio; valid = true })
    else none

pub snapshot : MediaClock → Bool → ℕ → MediaClockSnapshot
unfolding position_us
snapshot m prefer_audio now = elim (audio_snapshot m prefer_audio) [
  | some found ↦ found
  | none ↦ record { position_us = position_us m.fallback_clock now; source = system; valid = true }
]
