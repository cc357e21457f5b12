-- ===== src/Mediaflow/Interleaver/Examples.antt =====
-- DtsInterleaver: two tracks at concrete times.
use video_pipeline.Base.{ℕ, ◌≤◌, ◌≡◌, refl, true, false, List, [], ◌∷◌, map, some, arith}
use mathlib.Core.List.{Perm}
use video_pipeline.Base.Int.{pos, ◌-ℤ◌, ◌+ℤ◌}
use video_pipeline.Mediaflow.Timing.{no_timestamp, saturating_subtract}
use video_pipeline.Mediaflow.Interleaver.{
  MediaPacket, DtsPacket, DtsInterleaverConfig, dts_of, create, push, pending_size,
}
use video_pipeline.Mediaflow.Interleaver.Loop.{InOrder}
use video_pipeline.Mediaflow.Interleaver.Conservation.{
  interleave, interleave-perm, present, push_all,
}
use video_pipeline.Mediaflow.Interleaver.Order.{
  push-bounded, interleave-InOrder, Before-none, Before-one,
}

abbrev content : MediaPacket
content = record {
  stream_index = pos 0;
  pts = pos 0;
  dts = pos 0;
  duration = pos 20;
  time_base = record { num = pos 1; den = pos 1000 };
  keyframe = false;
  buffer = some (1 ∷ []);
}

abbrev packet_at : ℕ → ℕ → DtsPacket
packet_at track dts = record {
  packet = some content;
  timing = record {
    pts_us = pos dts;
    dts_us = pos dts;
    duration_us = no_timestamp;
    pts_valid = true;
    dts_valid = true;
    duration_valid = false;
  };
  track_id = pos track;
  generation = 1;
}

abbrev config : DtsInterleaverConfig
config = record { max_pending_packets = 2; max_pending_span_us = pos 200_000 }

abbrev two_tracks : List DtsPacket
two_tracks = packet_at 0 0 ∷ packet_at 0 40_000 ∷ packet_at 1 20_000 ∷ packet_at 1 30_000 ∷ []

interleave_sorts :
    map dts_of (interleave config two_tracks) ≡ pos 0 ∷ pos 20_000 ∷ pos 30_000 ∷ pos 40_000 ∷ []
unfolding interleave push saturating_subtract ◌-ℤ◌ ◌+ℤ◌
interleave_sorts = refl

interleave-perm_example : Perm (interleave config two_tracks) (present two_tracks)
interleave-perm_example = interleave-perm config two_tracks

push-bounded_example :
    pending_size (push (push_all (create config) two_tracks).1 (packet_at 0 80_000)).1 ≤ 2
unfolding push_all create push
push-bounded_example =
    push-bounded (push_all (create config) two_tracks).1 (packet_at 0 80_000) refl

interleave-InOrder_example : InOrder (interleave config two_tracks)
unfolding create push saturating_subtract ◌-ℤ◌ ◌+ℤ◌
interleave-InOrder_example = interleave-InOrder config two_tracks (
  refl,
  refl,
  refl,
  Before-none _,
  (
    refl,
    refl,
    refl,
    Before-none _,
    (
      refl,
      refl,
      refl,
      Before-none _,
      (refl, refl, refl, Before-one (packet_at 0 0) (packet_at 1 30_000) (omega arith), tt),
    ),
  ),
)
