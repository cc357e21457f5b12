-- ===== src/Avtp/TimestampMapper/Examples.antt =====
-- The timestamp mapper across a wrap of the 32 bits: the theorems at concrete arguments.
use video_pipeline.Base.{◌≡◌, refl, false, [], ◌∷◌, arith}
use video_pipeline.Base.Int.{pos, ◌+ℤ◌, ◌-ℤ◌, ◌*ℤ◌}
use video_pipeline.Avtp.TimestampMapper.{
  create, set_anchor, restart_event, map_timestamp, mapped_of, trunc_div,
}
use video_pipeline.Avtp.TimestampMapper.Timeline.{Sent, Follows, started, map_all, map_all-Follows}

-- One microsecond before the wrap, and 40 milliseconds later.

abbrev later : Sent
later = record { avtp_timestamp = 39_999_000; time = pos 4_334_966_296; captured = pos 5_041_000 }

later-Follows : Follows (started (pos 500_000) 7 false 4_294_966_296 (pos 5_000_000)) later
unfolding create map_timestamp restart_event set_anchor mapped_of trunc_div ◌+ℤ◌ ◌-ℤ◌ ◌*ℤ◌
later-Follows = record {
  low_bits = omega arith;
  cycle = (pos 1, refl);
  predicted = (omega arith, omega arith);
  near = (omega arith, omega arith);
}

map_all-Follows_example :
    map_all (started (pos 500_000) 7 false 4_294_966_296 (pos 5_000_000)) 7 false (later ∷ [])
    ≡ pos 5_040_000 ∷ []
unfolding trunc_div ◌+ℤ◌ ◌-ℤ◌
map_all-Follows_example =
    map_all-Follows (pos 500_000) (pos 5_000_000) 7 4_294_966_296 false (later ∷ [])
      (later-Follows, tt)
