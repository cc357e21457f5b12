-- ===== src/Media/Rtcp.antt =====
-- src/media/protocol/rtcp_packet_codec.cpp: RTCP sender reports, report blocks and compound packets.
pub mod Compound
pub mod Reports
mod Examples
use video_pipeline.Base.{
  ℕ, zero, suc, ◌+◌, ◌-◌, ◌*◌, ◌/◌, ◌%◌, ◌^◌, ◌<◌, Bool, true, false, not, ◌||◌, List, [], ◌∷◌,
  ◌++◌, Option, none, some, ltb, leb, ◌==◌, if◌then◌else◌, length, take, drop, set, replicate,
}
use video_pipeline.Base.Int.{ℤ, pos, negsuc}
use video_pipeline.Media.Wire.{
  Buffer, null, bytes, byte_at, read_u16, read_u32, write_u16, write_u32,
}

pub record ReportBlock : Type 0 where
  pub source_ssrc : ℕ
  pub fraction_lost : ℕ
  pub cumulative_lost : ℤ
  pub extended_highest_sequence : ℕ
  pub jitter : ℕ
  pub last_sender_report : ℕ
  pub delay_since_last_sender_report : ℕ

pub record Packet : Type 0 where
  pub packet_type : ℕ
  pub report_count : ℕ
  pub content : List ℕ

pub record CompoundResult : Type 0 where
  pub packets : List Packet
  pub error_offset : ℕ
  pub trailing_bytes : ℕ
  pub invalid_packet_size : ℕ
  pub invalid_version : ℕ
  pub valid : Bool

abbrev pub sender_report_packet_type : ℕ
sender_report_packet_type = 200

abbrev pub unix_to_ntp_seconds : ℕ
unix_to_ntp_seconds = 2208988800

-- An int32_t that is held as its bit pattern.
abbrev pub signed32 : ℕ → ℤ
signed32 w = if ltb w (2 ^ 31) then pos w else negsuc (2 ^ 32 - w - 1)

unfoldable pub read_s24 : List ℕ → ℤ
read_s24 p =
    let value = byte_at p 0 * 2 ^ 16 + byte_at p 1 * 2 ^ 8 + byte_at p 2 in
    signed32 (if value / 2 ^ 23 % 2 == 0 then value else value % 2 ^ 24 + 0xff00_0000)

-- `secs` and `nanos` are what `system_clock::now()` gives: whole seconds since the Unix epoch, and
-- the nanoseconds beyond them.
unfoldable pub build_sender_report : ℕ → ℕ → ℕ → ℕ → ℕ → ℕ → List ℕ
unfolding write_u16 write_u32
build_sender_report secs nanos ssrc rtp_timestamp packet_count octet_count =
    let ntp_seconds = (secs + unix_to_ntp_seconds) % 2 ^ 32 in
    let ntp_fraction = nanos * 2 ^ 32 % 2 ^ 64 / 1_000_000_000 % 2 ^ 32 in
    let report = set (replicate 28 0) 0 0x80 in
    let report = set report 1 sender_report_packet_type in
    let report = write_u16 2 6 report in
    let report = write_u32 4 ssrc report in
    let report = write_u32 8 ntp_seconds report in
    let report = write_u32 12 ntp_fraction report in
    let report = write_u32 16 rtp_timestamp report in
    let report = write_u32 20 packet_count report in write_u32 24 octet_count report

block_of : List ℕ → ReportBlock
unfolding read_u32 read_s24
block_of p = record {
  source_ssrc = read_u32 p;
  fraction_lost = byte_at p 4;
  cumulative_lost = read_s24 (drop 5 p);
  extended_highest_sequence = read_u32 (drop 8 p);
  jitter = read_u32 (drop 12 p);
  last_sender_report = read_u32 (drop 16 p);
  delay_since_last_sender_report = read_u32 (drop 20 p);
}

-- `false`, with the block left alone, is `none`.
pub read_report_block : Buffer → Option ReportBlock
unfolding block_of
read_report_block (null size) = none
read_report_block (bytes p) = if ltb (length p) 24 then none else some (block_of p)

pub packet_size_of : List ℕ → ℕ
unfolding read_u16
packet_size_of packet = (read_u16 (drop 2 packet) + 1) * 4

pub version_of : List ℕ → ℕ
version_of packet = byte_at packet 0 / 2 ^ 6

pub parsed_of : List ℕ → Packet
unfolding packet_size_of
parsed_of packet = record {
  packet_type = byte_at packet 1;
  report_count = byte_at packet 0 % 2 ^ 5;
  content = take (packet_size_of packet) packet;
}

-- The test that stops the loop with `valid = false`; `available` is `size - offset`.
pub is_malformed : List ℕ → ℕ → Bool
unfolding packet_size_of version_of
is_malformed packet available =
    not (version_of packet == 2)
    || ltb (packet_size_of packet) 4
    || ltb available (packet_size_of packet)

pub rejected : List Packet → ℕ → List ℕ → CompoundResult
unfolding packet_size_of version_of
rejected packets offset packet = record {
  packets = packets;
  error_offset = offset;
  trailing_bytes = 0;
  invalid_packet_size = packet_size_of packet;
  invalid_version = version_of packet;
  valid = false;
}

pub finished : List Packet → ℕ → CompoundResult
finished packets trailing = record {
  packets = packets;
  error_offset = 0;
  trailing_bytes = trailing;
  invalid_packet_size = 0;
  invalid_version = 0;
  valid = true;
}

-- The `while` loop: `rest` is `data + offset`, and `packets` what `result.packets` holds so far.
pub parse_packets : ℕ → List ℕ → ℕ → List Packet → CompoundResult
parse_packets zero rest offset packets = finished packets (length rest)
parse_packets (suc fuel) rest offset packets =
    let size = packet_size_of rest in
    let more =
      parse_packets fuel (drop size rest) (offset + size) (packets ++ (parsed_of rest ∷ [])) in
    if ltb (length rest) 4
    then finished packets (length rest)
    else if is_malformed rest (length rest)
    then rejected packets offset rest
    else more

-- A round takes four bytes at least, so as many rounds as there are bytes are enough.
pub parse_compound : Buffer → CompoundResult
unfolding rejected finished parse_packets is_malformed parsed_of
parse_compound (null size) = if size == 0 then finished [] 0 else record {
  packets = [];
  error_offset = 0;
  trailing_bytes = 0;
  invalid_packet_size = 0;
  invalid_version = 0;
  valid = false;
}
parse_compound (bytes p) = parse_packets (length p) p 0 []
