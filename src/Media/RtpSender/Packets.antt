-- ===== src/Media/RtpSender/Packets.antt =====
-- RtpSender::BuildRtpPacket: the bytes of a packet, and the counters over a run of packets.
use video_pipeline.Base.{
  ℕ, ◌+◌, ◌%◌, ◌^◌, ◌≤◌, ◌<◌, ◌≡◌, refl, ap, ap₂, ◌∙◌, Bool, List, [], ◌∷◌, none, arith,
  if◌then◌else◌, length,
}
use video_pipeline.Media.Wire.{be16, be32, All}
use video_pipeline.Media.Packetizer.{RtpPayload}
use video_pipeline.Media.RtpSender.{RtpSender, RtpSenderConfig, rtp_header, build_rtp_packet}

-- The layout of RFC 3550: version 2, no padding, extension or CSRC; marker and payload type;
-- sequence, timestamp, SSRC; the payload.
abbrev pub rtp_bytes : Bool → ℕ → ℕ → ℕ → ℕ → List ℕ → List ℕ
rtp_bytes marker type sequence timestamp ssrc payload =
    0x80
    ∷ ((if marker then 0x80 else 0) + type % 2 ^ 7)
    ∷ be16 sequence (be32 timestamp (be32 ssrc payload))

-- The packets that a list of payloads gives, with the payload type of the configuration.
pub send_all : RtpSender → List RtpPayload → List (List ℕ) × RtpSender
send_all s [] = ([], s)
send_all s (p ∷ ps) =
    let (packet, next) = build_rtp_packet s p none in
    let (packets, last) = send_all next ps in (packet ∷ packets, last)

-- What a run of payloads should give: sequence numbers that count up from `sequence`.
pub expected_packets : ℕ → ℕ → ℕ → List RtpPayload → List (List ℕ)
expected_packets type ssrc sequence [] = []
expected_packets type ssrc sequence (p ∷ ps) =
    rtp_bytes p.marker type (sequence % 2 ^ 16) p.timestamp ssrc p.payload
    ∷ expected_packets type ssrc (sequence + 1) ps

abbrev pub octets : List RtpPayload → ℕ
octets [] = 0
octets (p ∷ ps) = length p.payload + octets ps

build_rtp_packet-layout :
    (s : RtpSender) (p : RtpPayload)
    → 1 ≤ length p.payload
    → (build_rtp_packet s p none).0
      ≡ rtp_bytes p.marker s.payload_type s.next_sequence p.timestamp s.ssrc p.payload
unfolding build_rtp_packet rtp_header
build_rtp_packet-layout s p h = ground arith

build_rtp_packet-next :
    (s : RtpSender) (p : RtpPayload)
    → 1 ≤ length p.payload
    → let next = (build_rtp_packet s p none).1 in
      (next.config ≡ s.config)
      × (next.next_sequence ≡ (s.next_sequence + 1) % 2 ^ 16)
      × (next.packet_count ≡ (s.packet_count + 1) % 2 ^ 32)
      × (next.octet_count ≡ (s.octet_count + length p.payload) % 2 ^ 32)
unfolding build_rtp_packet
build_rtp_packet-next s p h = ground arith

-- n payloads, none of them empty, give n packets in the layout of RFC 3550, with consecutive
-- sequence numbers modulo 2 ^ 16 from the sender's next one on; then the sender's counters have
-- grown by n and by the number of payload bytes, modulo 2 ^ 32.
pub send_all-expected :
    (s : RtpSender) (ps : List RtpPayload) (sequence : ℕ)
    → All (λ p. 1 ≤ length p.payload) ps
    → s.next_sequence ≡ sequence % 2 ^ 16
    → s.packet_count < 2 ^ 32
    → s.octet_count < 2 ^ 32
    → ((send_all s ps).0 ≡ expected_packets s.payload_type s.ssrc sequence ps)
      × ((send_all s ps).1.next_sequence ≡ (sequence + length ps) % 2 ^ 16)
      × ((send_all s ps).1.packet_count ≡ (s.packet_count + length ps) % 2 ^ 32)
      × ((send_all s ps).1.octet_count ≡ (s.octet_count + octets ps) % 2 ^ 32)
unfolding send_all expected_packets
send_all-expected s [] sequence h e hp ho = (refl, omega arith, omega arith, omega arith)
send_all-expected s (p ∷ ps) sequence (h, hs) e hp ho =
    let next = (build_rtp_packet s p none).1 in
    let (config, seq, count, octet) = build_rtp_packet-next s p h in
    let (packets, seq', count', octet') =
      send_all-expected next ps (sequence + 1) hs (omega arith) (omega arith) (omega arith) in
    (
      ap₂ (λ x xs. x ∷ xs) (build_rtp_packet-layout s p h ∙ rw e)
          (packets
            ∙ ap (λ (c : RtpSenderConfig). expected_packets c.payload_type c.ssrc (sequence + 1) ps)
                config),
      omega (arith, seq'),
      omega (arith, count'),
      omega (arith, octet'),
    )
