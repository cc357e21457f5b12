-- ===== src/Media/Rtcp/Reports.antt =====
-- Sender reports and report blocks of rtcp_packet_codec.cpp, byte by byte.
use video_pipeline.Base.{
  ℕ, ◌+◌, ◌-◌, ◌*◌, ◌/◌, ◌%◌, ◌^◌, ◌≤◌, ◌<◌, ◌≡◌, refl, List, [], ◌∷◌, some, arith, append-nil,
  drop, length,
}
use video_pipeline.Base.Int.{ℤ, pos, negsuc}
use video_pipeline.Media.Wire.{bytes, be32, read_u32, read_u32-be32}
use video_pipeline.Media.Rtcp.Compound.{parse_compound-contents}
use video_pipeline.Media.Rtcp.{
  ReportBlock, Packet, block_of, finished, parse_compound, build_sender_report, read_report_block,
  read_s24, unix_to_ntp_seconds,
}

-- The 24 bits of a signed count.
abbrev pub s24_bits : ℤ → ℕ
s24_bits (pos n) = n
s24_bits (negsuc n) = 2 ^ 24 - 1 - n

abbrev pub IsS24 : ℤ → Type 0
IsS24 (pos n) = n < 2 ^ 23
IsS24 (negsuc n) = n < 2 ^ 23

-- The layout of a report block in RFC 3550.
abbrev pub block_bytes : ReportBlock → List ℕ → List ℕ
block_bytes b rest = be32 b.source_ssrc (
    b.fraction_lost
    ∷ s24_bits b.cumulative_lost / 2 ^ 16 % 2 ^ 8
    ∷ s24_bits b.cumulative_lost / 2 ^ 8 % 2 ^ 8
    ∷ s24_bits b.cumulative_lost % 2 ^ 8
    ∷ be32 b.extended_highest_sequence
        (be32 b.jitter (be32 b.last_sender_report (be32 b.delay_since_last_sender_report rest))))

pub record IsBlock (b : ReportBlock) : Type 0 where
  pub ssrc : b.source_ssrc < 2 ^ 32
  pub lost : IsS24 b.cumulative_lost
  pub highest : b.extended_highest_sequence < 2 ^ 32
  pub jitter : b.jitter < 2 ^ 32
  pub last : b.last_sender_report < 2 ^ 32
  pub delay : b.delay_since_last_sender_report < 2 ^ 32

pub read_s24-bits :
    (z : ℤ) (rest : List ℕ)
    → IsS24 z
    → read_s24
        ((s24_bits z / 2 ^ 16 % 2 ^ 8) ∷ (s24_bits z / 2 ^ 8 % 2 ^ 8) ∷ (s24_bits z % 2 ^ 8) ∷ rest)
      ≡ z
unfolding read_s24
read_s24-bits (pos n) rest h = ground arith
read_s24-bits (negsuc n) rest h = ground arith

block_of-block_bytes :
    (b : ReportBlock) (rest : List ℕ) → IsBlock b → block_of (block_bytes b rest) ≡ b
unfolding block_of
block_of-block_bytes b rest h = ground (
  arith,
  read_u32-be32 b.source_ssrc (drop 4 (block_bytes b rest)),
  read_s24-bits b.cumulative_lost (drop 8 (block_bytes b rest)),
  read_u32-be32 b.extended_highest_sequence (drop 12 (block_bytes b rest)),
  read_u32-be32 b.jitter (drop 16 (block_bytes b rest)),
  read_u32-be32 b.last_sender_report (drop 20 (block_bytes b rest)),
  read_u32-be32 b.delay_since_last_sender_report rest,
)

-- A report block that is laid out as in RFC 3550 is read back field by field, whatever follows it;
-- the count of lost packets is a signed number of 24 bits.
pub read_report_block-block_bytes :
    (b : ReportBlock) (rest : List ℕ)
    → IsBlock b
    → read_report_block (bytes (block_bytes b rest)) ≡ some b
unfolding read_report_block
read_report_block-block_bytes b rest h = ground (arith, block_of-block_bytes b rest h)

pub build_sender_report-layout :
    (secs nanos ssrc rtp_timestamp packets octets : ℕ)
    → build_sender_report secs nanos ssrc rtp_timestamp packets octets
      ≡ 0x80
        ∷ 200
        ∷ 0
        ∷ 6
        ∷ be32 ssrc (
            be32 ((secs + unix_to_ntp_seconds) % 2 ^ 32) (
              be32
                (nanos * 2 ^ 32 % 2 ^ 64 / 1_000_000_000 % 2 ^ 32)
                (be32 rtp_timestamp (be32 packets (be32 octets [])))))
unfolding build_sender_report
build_sender_report-layout secs nanos ssrc rtp_timestamp packets octets = refl

abbrev pub sender_report : List ℕ → Packet
sender_report content = record { packet_type = 200; report_count = 0; content = content }

-- For nanoseconds below a second and arguments of 32 bits, a sender report is one well-formed RTCP packet: it has 28 bytes, the compound parser takes it whole
-- as one packet of type SR, and its words give back the arguments (the NTP time with the Unix
-- seconds moved to the NTP epoch, modulo 2 ^ 32, and the nanoseconds as a fraction of 2 ^ 32,
-- rounded down).
pub build_sender_report-fields :
    (secs nanos ssrc rtp_timestamp packets octets : ℕ)
    → nanos < 1_000_000_000
    → ssrc < 2 ^ 32
    → rtp_timestamp < 2 ^ 32
    → packets < 2 ^ 32
    → octets < 2 ^ 32
    → let report = build_sender_report secs nanos ssrc rtp_timestamp packets octets in
      (length report ≡ 28)
      × (parse_compound (bytes report) ≡ finished (sender_report report ∷ []) 0)
      × (read_u32 (drop 4 report) ≡ ssrc)
      × (read_u32 (drop 8 report) ≡ (secs + unix_to_ntp_seconds) % 2 ^ 32)
      × (read_u32 (drop 12 report) * 1_000_000_000 ≤ nanos * 2 ^ 32)
      × (nanos * 2 ^ 32 < (read_u32 (drop 12 report) + 1) * 1_000_000_000)
      × (read_u32 (drop 16 report) ≡ rtp_timestamp)
      × (read_u32 (drop 20 report) ≡ packets)
      × (read_u32 (drop 24 report) ≡ octets)
build_sender_report-fields secs nanos ssrc rtp_timestamp packets octets hn hs ht hp ho =
    let ntp = (secs + unix_to_ntp_seconds) % 2 ^ 32 in
    let fraction = nanos * 2 ^ 32 % 2 ^ 64 / 1_000_000_000 % 2 ^ 32 in
    let from_rtp = be32 rtp_timestamp (be32 packets (be32 octets [])) in
    let report = 0x80 ∷ 200 ∷ 0 ∷ 6 ∷ be32 ssrc (be32 ntp (be32 fraction from_rtp)) in
    let fraction_read = read_u32-be32 fraction from_rtp (omega arith) in
    rw (build_sender_report-layout secs nanos ssrc rtp_timestamp packets octets) (
      refl,
      rw append-nil at
          (parse_compound-contents (sender_report report ∷ []) [] (omega arith, tt) (omega arith)),
      read_u32-be32 ssrc _ hs,
      read_u32-be32 ntp _ (omega arith),
      omega (arith, fraction_read),
      omega (arith, fraction_read),
      read_u32-be32 rtp_timestamp _ ht,
      read_u32-be32 packets _ hp,
      read_u32-be32 octets _ ho,
    )
