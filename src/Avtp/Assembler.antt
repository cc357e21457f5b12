-- ===== src/Avtp/Assembler.antt =====
-- src/media/protocol/avtp/avtp_payload_assembler.cpp: access units out of AVTP fragments.
-- A result comes with the access unit that `output` receives, if any, and with the next state.
pub mod Blocks
pub mod Accept
pub mod Soundness
pub mod Delivery
mod Examples
use video_pipeline.Base.{
  ℕ, ◌+◌, ◌*◌, ◌%◌, ◌^◌, Bool, true, false, not, ◌&&◌, ◌||◌, List, [], ◌∷◌, ◌++◌, Option, none,
  some, leb, ◌==◌, if◌then◌else◌, length,
}
use video_pipeline.Base.Int.{ℤ, pos}
use video_pipeline.Media.Bitstream.{is_empty}
use video_pipeline.Avtp.Parser.{ParsedCvfPacket, zero_mac}

pub data Result : Type 0 where
  need_more access_unit_ready dropped : Result

pub record Stats : Type 0 where
  pub packets : ℕ
  pub access_units : ℕ
  pub lost_packets : ℕ
  pub malformed_packets : ℕ
  pub payload_bytes : ℕ
  pub dropped_access_units : ℕ

abbrev pub no_stats : Stats
no_stats = record {
  packets = 0;
  access_units = 0;
  lost_packets = 0;
  malformed_packets = 0;
  payload_bytes = 0;
  dropped_access_units = 0;
}

pub record AvtpAccessUnit : Type 0 where
  pub content : List ℕ
  pub capture_timestamp_us : ℤ
  pub avtp_timestamp : ℕ

-- What one call of Push brings: the packet, its payload and the capture time.
pub record Fragment : Type 0 where
  pub packet : ParsedCvfPacket
  pub fragment_payload : List ℕ
  pub captured_us : ℤ

pub record Assembler : Type 0 where
  pub max_access_unit_size : ℕ
  pub stats : Stats
  pub current : List ℕ
  pub has_stream : Bool
  pub current_stream : ℕ
  pub current_mac : List ℕ
  pub expected_sequence : ℕ
  pub have_expected_sequence : Bool
  pub dropping_until_marker : Bool
  pub first_capture_timestamp_us : ℤ
  pub first_avtp_timestamp : ℕ

abbrev pub Outcome : Type 0
Outcome = Result × Option AvtpAccessUnit × Assembler

-- The constructor, and Reset.
unfoldable pub init : ℕ → Assembler
init max_access_unit_size = record {
  max_access_unit_size = max_access_unit_size;
  stats = no_stats;
  current = [];
  has_stream = false;
  current_stream = 0;
  current_mac = zero_mac;
  expected_sequence = 0;
  have_expected_sequence = false;
  dropping_until_marker = false;
  first_capture_timestamp_us = pos 0;
  first_avtp_timestamp = 0;
}

unfoldable pub reset : Assembler → Assembler
reset s = init s.max_access_unit_size

-- `++` on a uint64_t counter.
abbrev pub bump : ℕ → ℕ
bump n = (n + 1) % 2 ^ 64

abbrev pub next_sequence : ℕ → ℕ
next_sequence n = (n + 1) % 2 ^ 8

pub reset_access_unit : Assembler → Assembler
reset_access_unit s = record s {
  current = [];
  first_capture_timestamp_us = pos 0;
  first_avtp_timestamp = 0;
}

unfoldable pub is_same_mac : List ℕ → List ℕ → Bool
is_same_mac [] [] = true
is_same_mac (a ∷ as') (b ∷ bs) = a == b && is_same_mac as' bs
is_same_mac _ _ = false

pub same_stream : Assembler → ParsedCvfPacket → Bool
same_stream s k =
    if not s.has_stream || not (k.stream_id == s.current_stream)
    then false
    else if k.has_ethernet_header && not (is_same_mac k.source_mac s.current_mac)
    then false
    else true

pub switch_stream : Assembler → ParsedCvfPacket → Assembler
unfolding reset_access_unit
switch_stream s k = reset_access_unit (record s {
  has_stream = true;
  current_stream = k.stream_id;
  current_mac = if k.has_ethernet_header then k.source_mac else zero_mac;
  expected_sequence = next_sequence k.sequence_num;
  have_expected_sequence = true;
  dropping_until_marker = false;
})

pub drop_current_access_unit : Assembler → Bool → Outcome
unfolding reset_access_unit
drop_current_access_unit s wait_until_marker =
    let counted : Assembler = if is_empty s.current then s else record s {
      stats = record s.stats { dropped_access_units = bump s.stats.dropped_access_units };
    } in
    (
      dropped,
      none,
      record (reset_access_unit counted) { dropping_until_marker = wait_until_marker },
    )

pub finish_access_unit : Assembler → Outcome
unfolding reset_access_unit
finish_access_unit s = if is_empty s.current then (dropped, none, reset_access_unit s) else (
  access_unit_ready,
  some (record {
    content = s.current;
    capture_timestamp_us = s.first_capture_timestamp_us;
    avtp_timestamp = s.first_avtp_timestamp;
  }),
  reset_access_unit
      (record s { stats = record s.stats { access_units = bump s.stats.access_units } }),
)

-- The end of Push, from the test of `dropping_until_marker_` on; Append stands in it.
pub accept : Assembler → Fragment → Outcome
unfolding drop_current_access_unit finish_access_unit
accept s f =
    let started : Assembler =
      if is_empty s.current
      then record s {
        first_capture_timestamp_us = f.captured_us;
        first_avtp_timestamp = f.packet.avtp_timestamp;
      }
      else s in
    let appended = record started { current = started.current ++ f.fragment_payload } in
    let overflown = record started {
      stats = record started.stats { malformed_packets = bump started.stats.malformed_packets };
    } in
    if s.dropping_until_marker
    then (dropped, none, if f.packet.marker then record s { dropping_until_marker = false } else s)
    else if leb (length s.current + length f.fragment_payload) s.max_access_unit_size
    then (if f.packet.marker then finish_access_unit appended else (need_more, none, appended))
    else drop_current_access_unit overflown (not f.packet.marker)

-- Push on a payload that is not empty: the tests of the stream and of the sequence number.
pub sequence_step : Assembler → Fragment → Outcome
unfolding switch_stream accept
sequence_step s f =
    let expect = record s {
      expected_sequence = next_sequence f.packet.sequence_num;
      have_expected_sequence = true;
    } in
    let lost = record s {
      expected_sequence = next_sequence f.packet.sequence_num;
      stats = record s.stats { lost_packets = bump s.stats.lost_packets };
    } in
    if not (same_stream s f.packet)
    then accept (switch_stream s f.packet) f
    else if s.have_expected_sequence && not (f.packet.sequence_num == s.expected_sequence)
    then drop_current_access_unit lost (not f.packet.marker)
    else accept expect f

abbrev pub count_packet : Assembler → Fragment → Assembler
count_packet s f = record s {
  stats = record s.stats {
    packets = bump s.stats.packets;
    payload_bytes = (s.stats.payload_bytes + length f.fragment_payload) % 2 ^ 64;
  };
}

unfoldable pub push : Assembler → Fragment → Outcome
unfolding sequence_step
push s f =
    let counted = count_packet s f in
    if is_empty f.fragment_payload
    then (
      need_more,
      none,
      record counted {
        stats = record counted.stats { malformed_packets = bump counted.stats.malformed_packets };
      },
    )
    else sequence_step counted f
