-- ===== src/Media/RtpSender.antt =====
-- src/media/protocol/rtp_sender.cpp: the state of one RTP track.
-- The clock is an argument. Times are nanoseconds of `steady_clock` since its epoch, and the default
-- `time_point{}` is 0; the random SSRC and sequence of `CreateDefault` are an argument too.
pub mod Packets
pub mod Reports
mod Examples
use video_pipeline.Base.{
  ℕ, zero, suc, ◌+◌, ◌*◌, ◌/◌, ◌%◌, ◌^◌, Bool, true, false, not, ◌&&◌, ◌||◌, List, [], ◌∷◌, ◌++◌,
  Option, none, some, ltb, ◌==◌, if◌then◌else◌, length, set, replicate,
}
use video_pipeline.Media.Wire.{write_u16, write_u32}
use video_pipeline.Media.Rtcp
use video_pipeline.Media.Packetizer.{RtpPayload}

-- `sender_report_interval` is in milliseconds; a count of 0 stands for every count that is not
-- positive, which the constructor treats alike.
pub record RtpSenderConfig : Type 0 where
  pub payload_type : ℕ
  pub ssrc : ℕ
  pub initial_sequence : ℕ
  pub clock_rate : ℕ
  pub sender_report_interval : ℕ

pub record RtpSender : Type 0 where
  pub config : RtpSenderConfig
  pub open config use *
  pub next_sequence : ℕ
  pub last_rtp_timestamp : ℕ
  pub packet_count : ℕ
  pub octet_count : ℕ
  pub next_sender_report_time : ℕ
  pub has_rtp_packet : Bool

-- The constructor.
unfoldable pub init : RtpSenderConfig → RtpSender
init c = record {
  config = record c {
    clock_rate = if c.clock_rate == 0 then 90000 else c.clock_rate;
    sender_report_interval =
        if c.sender_report_interval == 0 then 5000 else c.sender_report_interval;
  };
  next_sequence = c.initial_sequence;
  last_rtp_timestamp = 0;
  packet_count = 0;
  octet_count = 0;
  next_sender_report_time = 0;
  has_rtp_packet = false;
}

abbrev get_or_config : Option ℕ → ℕ → ℕ
get_or_config none d = d
get_or_config (some x) d = x

-- The twelve bytes of the header, written in place over zeroes.
rtp_header : RtpSender → RtpPayload → Option ℕ → List ℕ
unfolding write_u16 write_u32
rtp_header s p payload_type =
    let type = get_or_config payload_type s.payload_type in
    let marker_bit : ℕ = if p.marker then 0x80 else 0 in
    let rtp = set (replicate 12 0) 0 0x80 in
    let rtp = set rtp 1 (marker_bit + type % 2 ^ 7) in
    let rtp = write_u16 2 s.next_sequence rtp in
    let rtp = write_u32 4 p.timestamp rtp in write_u32 8 s.ssrc rtp

-- The packet and the sender behind it; an empty payload gives no packet and changes nothing.
pub build_rtp_packet : RtpSender → RtpPayload → Option ℕ → List ℕ × RtpSender
build_rtp_packet s p payload_type = if length p.payload == 0 then ([], s) else (
  rtp_header s p payload_type ++ p.payload,
  record s {
    next_sequence = (s.next_sequence + 1) % 2 ^ 16;
    last_rtp_timestamp = p.timestamp;
    has_rtp_packet = true;
    packet_count = (s.packet_count + 1) % 2 ^ 32;
    octet_count = (s.octet_count + length p.payload % 2 ^ 32) % 2 ^ 32;
  },
)

pub should_send_sender_report : RtpSender → ℕ → Bool × RtpSender
should_send_sender_report s now =
    if not s.has_rtp_packet
    then (false, s)
    else if not (s.next_sender_report_time == 0) && ltb now s.next_sender_report_time
    then (false, s)
    else (true, record s { next_sender_report_time = now + s.sender_report_interval * 1_000_000 })

-- The report takes the wall clock, in seconds and nanoseconds since the Unix epoch.
pub build_sender_report : RtpSender → ℕ → ℕ → List ℕ
build_sender_report s secs nanos =
    if s.has_rtp_packet
    then Rtcp.build_sender_report secs nanos s.ssrc s.last_rtp_timestamp s.packet_count
        s.octet_count
    else []
