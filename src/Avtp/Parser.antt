-- ===== src/Avtp/Parser.antt =====
-- src/media/protocol/avtp/avtp_packet_parser.cpp: CVF video and AAF audio packets, bare or behind an
-- Ethernet header with at most two VLAN tags. A payload pointer with its size is the list of its
-- bytes; the null pointer, which only comes with size 0, is the empty list.
pub mod Bounds
mod Examples
pub mod Cvf
pub mod Ethernet
use video_pipeline.Base.{
  ℕ, zero, suc, ◌+◌, ◌-◌, ◌*◌, ◌/◌, ◌%◌, ◌^◌, Bool, true, false, not, ◌&&◌, ◌||◌, List, [], ◌∷◌,
  ◌++◌, Option, none, some, ltb, leb, ◌==◌, if◌then◌else◌, length, take, drop, replicate,
}
use video_pipeline.Media.Wire.{Buffer, null, bytes, byte_at, read_u16, read_u32}

pub data ParseError : Type 0 where
  too_short unsupported_ether_type unsupported_subtype unsupported_version unsupported_format
        stream_data_length_too_large :
      ParseError

-- The Boolean result with `*error`: `ParseError::None` is the success.
pub data Parsed (A : Type 0) : Type 0 where
  ok : A → Parsed A
  fail : ParseError → Parsed A

abbrev pub ether_type_avtp : ℕ
ether_type_avtp = 0x22f0

abbrev pub cvf_header_size : ℕ
cvf_header_size = 24

abbrev pub custom_payload_magic : ℕ
custom_payload_magic = 0x415d_a05a

abbrev pub custom_payload_magic_alt : ℕ
custom_payload_magic_alt = 0x415e_a05a

-- The fields of both packets that the Ethernet header fills.
pub record EthernetPrefix : Type 0 where
  pub has_ethernet_header : Bool
  pub destination_mac : List ℕ
  pub source_mac : List ℕ
  pub ether_type : ℕ
  pub avtp_offset : ℕ

abbrev pub zero_mac : List ℕ
zero_mac = replicate 6 0

abbrev pub no_prefix : EthernetPrefix
no_prefix = record {
  has_ethernet_header = false;
  destination_mac = zero_mac;
  source_mac = zero_mac;
  ether_type = 0;
  avtp_offset = 0;
}

-- The fields of the header that both formats share.
pub record AvtpHeader : Type 0 where
  pub subtype : ℕ
  pub stream_id_valid : Bool
  pub version : ℕ
  pub media_clock_restart : Bool
  pub timestamp_valid : Bool
  pub sequence_num : ℕ
  pub timestamp_uncertain : Bool
  pub stream_id : ℕ
  pub avtp_timestamp : ℕ

pub record ParsedCvfPacket : Type 0 where
  pub prefix : EthernetPrefix
  pub open prefix use *
  pub header : AvtpHeader
  pub open header use *
  pub format : ℕ
  pub format_subtype : ℕ
  pub stream_data_length : ℕ
  pub payload_timestamp_valid : Bool
  pub marker : Bool
  pub event : ℕ
  pub payload : List ℕ
  pub has_custom_payload_header : Bool
  pub custom_payload_length : ℕ
  pub custom_magic : ℕ
  pub custom_rtp_timestamp : ℕ
  pub custom_ssrc : ℕ
  pub media_payload : List ℕ

pub record ParsedAafPacket : Type 0 where
  pub prefix : EthernetPrefix
  pub open prefix use *
  pub header : AvtpHeader
  pub open header use *
  pub format : ℕ
  pub nominal_sample_rate_code : ℕ
  pub sample_rate : ℕ
  pub channels_per_frame : ℕ
  pub bit_depth : ℕ
  pub stream_data_length : ℕ
  pub sparse_timestamp : Bool
  pub event : ℕ
  pub payload : List ℕ

unfoldable pub read_be64 : List ℕ → ℕ
unfolding read_u32
read_be64 p = read_u32 p * 2 ^ 32 + read_u32 (drop 4 p)

is_vlan_ether_type : ℕ → Bool
is_vlan_ether_type ether_type = ether_type == 0x8100 || ether_type == 0x88a8 || ether_type == 0x9100

aaf_sample_rate_from_code : ℕ → ℕ
aaf_sample_rate_from_code (suc zero) = 8000
aaf_sample_rate_from_code (suc (suc zero)) = 16000
aaf_sample_rate_from_code (suc (suc (suc zero))) = 32000
aaf_sample_rate_from_code (suc (suc (suc (suc zero)))) = 44100
aaf_sample_rate_from_code (suc (suc (suc (suc (suc zero))))) = 48000
aaf_sample_rate_from_code (suc (suc (suc (suc (suc (suc zero)))))) = 88200
aaf_sample_rate_from_code (suc (suc (suc (suc (suc (suc (suc zero))))))) = 96000
aaf_sample_rate_from_code (suc (suc (suc (suc (suc (suc (suc (suc zero)))))))) = 176400
aaf_sample_rate_from_code (suc (suc (suc (suc (suc (suc (suc (suc (suc zero))))))))) = 192000
aaf_sample_rate_from_code (suc (suc (suc (suc (suc (suc (suc (suc (suc (suc zero)))))))))) = 24000
aaf_sample_rate_from_code other = 0

-- The loop over VLAN tags: `tags` is how many more it may pass, `none` is a tag cut short.
skip_vlan : ℕ → List ℕ → ℕ → ℕ → Option (ℕ × ℕ)
skip_vlan zero p ether_type offset = some (ether_type, offset)
skip_vlan (suc tags) p ether_type offset =
    if is_vlan_ether_type ether_type
    then (if ltb (length p) (offset + 4)
        then none
        else skip_vlan tags p (read_u16 (drop (offset + 2) p)) (offset + 4))
    else some (ether_type, offset)

-- Both overloads of ParseEthernetPrefix.
pub parse_ethernet_prefix : List ℕ → Parsed EthernetPrefix
parse_ethernet_prefix p =
    if ltb (length p) 14 then fail too_short else elim (skip_vlan 2 p (read_u16 (drop 12 p)) 14) [
      | none ↦ fail too_short
      | some (ether_type, offset) ↦
          if ether_type == ether_type_avtp
          then ok (record {
            has_ethernet_header = true;
            destination_mac = take 6 p;
            source_mac = take 6 (drop 6 p);
            ether_type = ether_type;
            avtp_offset = offset;
          })
          else fail unsupported_ether_type
    ]

-- The bytes 0 to 15, as both PDU parsers read them.
header_of : List ℕ → AvtpHeader
header_of p = record {
  subtype = byte_at p 0;
  stream_id_valid = byte_at p 1 / 2 ^ 7 % 2 == 1;
  version = byte_at p 1 / 2 ^ 4 % 2 ^ 3;
  media_clock_restart = byte_at p 1 / 2 ^ 3 % 2 == 1;
  timestamp_valid = byte_at p 1 % 2 == 1;
  sequence_num = byte_at p 2;
  timestamp_uncertain = byte_at p 3 % 2 == 1;
  stream_id = read_be64 (drop 4 p);
  avtp_timestamp = read_u32 (drop 12 p);
}

-- The vendor header and the RTP-like header behind it, when the payload carries the magic number.
has_magic : List ℕ → Bool
has_magic payload =
    leb 8 (length payload)
    && (read_u32 (drop 4 payload) == custom_payload_magic
        || read_u32 (drop 4 payload) == custom_payload_magic_alt)

pub strip_custom_header : ParsedCvfPacket → ParsedCvfPacket
unfolding has_magic
strip_custom_header k =
    let stripped = record k {
      has_custom_payload_header = true;
      custom_payload_length = read_u32 k.payload;
      custom_magic = read_u32 (drop 4 k.payload);
      media_payload = drop 8 k.payload;
    } in
    if has_magic k.payload
    then (if leb 20 (length k.payload)
        then record stripped {
          custom_rtp_timestamp = read_u32 (drop 12 k.payload);
          custom_ssrc = read_u32 (drop 16 k.payload);
          media_payload = drop 20 k.payload;
        }
        else stripped)
    else k

cvf_packet : EthernetPrefix → List ℕ → ParsedCvfPacket
cvf_packet prefix p =
    let payload = take (read_u16 (drop 20 p)) (drop cvf_header_size p) in
    record {
      prefix = prefix;
      header = header_of p;
      format = byte_at p 16;
      format_subtype = byte_at p 17;
      stream_data_length = read_u16 (drop 20 p);
      payload_timestamp_valid = byte_at p 22 / 2 ^ 5 % 2 == 1;
      marker = byte_at p 22 / 2 ^ 4 % 2 == 1;
      event = byte_at p 22 % 2 ^ 4;
      payload = payload;
      has_custom_payload_header = false;
      custom_payload_length = 0;
      custom_magic = 0;
      custom_rtp_timestamp = 0;
      custom_ssrc = 0;
      media_payload = payload;
    }

pub parse_cvf_pdu : EthernetPrefix → List ℕ → Parsed ParsedCvfPacket
parse_cvf_pdu prefix p =
    if ltb (length p) cvf_header_size
    then fail too_short
    else if not (byte_at p 0 == 3)
    then fail unsupported_subtype
    else if not (byte_at p 1 / 2 ^ 4 % 2 ^ 3 == 0)
    then fail unsupported_version
    else if not (byte_at p 16 == 2)
    then fail unsupported_format
    else if ltb (length p - cvf_header_size) (read_u16 (drop 20 p))
    then fail stream_data_length_too_large
    else ok (strip_custom_header (cvf_packet prefix p))

-- AvtpPacketParser::Parse.
pub parse : Buffer → Parsed ParsedCvfPacket
parse (null size) = fail too_short
parse (bytes p) = elim (parse_ethernet_prefix p) [
  | ok prefix ↦ parse_cvf_pdu prefix (drop prefix.avtp_offset p)
  | fail e ↦ if leb 1 (length p) && byte_at p 0 == 3 then parse_cvf_pdu no_prefix p else fail e
]

aaf_packet : EthernetPrefix → List ℕ → ParsedAafPacket
unfolding header_of aaf_sample_rate_from_code
aaf_packet prefix p = record {
  prefix = prefix;
  header = header_of p;
  format = byte_at p 16;
  nominal_sample_rate_code = byte_at p 17 / 2 ^ 4;
  sample_rate = aaf_sample_rate_from_code (byte_at p 17 / 2 ^ 4);
  channels_per_frame = byte_at p 18;
  bit_depth = byte_at p 19;
  stream_data_length = read_u16 (drop 20 p);
  sparse_timestamp = byte_at p 22 / 2 ^ 4 % 2 == 1;
  event = byte_at p 22 % 2 ^ 4;
  payload = take (read_u16 (drop 20 p)) (drop 24 p);
}

pub parse_aaf_pdu : EthernetPrefix → List ℕ → Parsed ParsedAafPacket
unfolding aaf_packet
parse_aaf_pdu prefix p =
    if ltb (length p) 24
    then fail too_short
    else if not (byte_at p 0 == 2)
    then fail unsupported_subtype
    else if not (byte_at p 1 / 2 ^ 4 % 2 ^ 3 == 0)
    then fail unsupported_version
    else if ltb (length p - 24) (read_u16 (drop 20 p))
    then fail stream_data_length_too_large
    else ok (aaf_packet prefix p)

-- AvtpPacketParser::ParseAaf.
pub parse_aaf : Buffer → Parsed ParsedAafPacket
parse_aaf (null size) = fail too_short
parse_aaf (bytes p) = elim (parse_ethernet_prefix p) [
  | ok prefix ↦ parse_aaf_pdu prefix (drop prefix.avtp_offset p)
  | fail e ↦ if leb 1 (length p) && byte_at p 0 == 2 then parse_aaf_pdu no_prefix p else fail e
]
