-- ===== src/Avtp/Parser/Cvf.antt =====
-- ParseCvfPdu of avtp_packet_parser.cpp on the CVF layout of IEEE 1722, and the vendor header.
use video_pipeline.Base.{
  ℕ, ◌+◌, ◌*◌, ◌/◌, ◌%◌, ◌^◌, ◌<◌, ◌≡◌, Bool, true, false, List, [], ◌∷◌, ◌++◌, arith, ◌==◌, length,
  take, length-append, take-append,
}
use video_pipeline.Media.Wire.{be16, be32, read_u16, read_u16-be16, read_u32-be32}
use video_pipeline.Avtp.Parser.{
  EthernetPrefix, AvtpHeader, ParsedCvfPacket, ok, read_be64, header_of, cvf_packet, parse_cvf_pdu,
  strip_custom_header,
}

-- A flag at bit `k` of a byte.
abbrev pub flag : Bool → ℕ → ℕ
flag true k = 2 ^ k
flag false k = 0

-- The first sixteen bytes; the reserved bits are zero.
abbrev pub header_bytes : AvtpHeader → List ℕ → List ℕ
header_bytes h rest =
    h.subtype
    ∷ (flag h.stream_id_valid 7
        + h.version * 2 ^ 4
        + flag h.media_clock_restart 3
        + flag h.timestamp_valid 0)
    ∷ h.sequence_num
    ∷ flag h.timestamp_uncertain 0
    ∷ be32 (h.stream_id / 2 ^ 32) (be32 (h.stream_id % 2 ^ 32) (be32 h.avtp_timestamp rest))

pub record IsHeader (h : AvtpHeader) : Type 0 where
  pub version_range : h.version < 2 ^ 3
  pub id_range : h.stream_id < 2 ^ 64
  pub timestamp_range : h.avtp_timestamp < 2 ^ 32

-- The fields of a CVF packet beyond the header, with its reserved bytes.
pub record CvfFields : Type 0 where
  pub format_subtype : ℕ
  pub reserved_high : ℕ
  pub reserved_low : ℕ
  pub payload_timestamp_valid : Bool
  pub marker : Bool
  pub event : ℕ
  pub reserved_last : ℕ
  pub payload : List ℕ

abbrev pub cvf_bytes : AvtpHeader → CvfFields → List ℕ → List ℕ
cvf_bytes h f padding = header_bytes h (
    2
    ∷ f.format_subtype
    ∷ f.reserved_high
    ∷ f.reserved_low
    ∷ be16 (length f.payload) (
        (flag f.payload_timestamp_valid 5 + flag f.marker 4 + f.event)
        ∷ f.reserved_last
        ∷ (f.payload ++ padding)))

-- The packet that the fields describe, before the vendor header is looked at.
abbrev pub described : EthernetPrefix → AvtpHeader → CvfFields → ParsedCvfPacket
described prefix h f = record {
  prefix = prefix;
  header = h;
  format = 2;
  format_subtype = f.format_subtype;
  stream_data_length = length f.payload;
  payload_timestamp_valid = f.payload_timestamp_valid;
  marker = f.marker;
  event = f.event;
  payload = f.payload;
  has_custom_payload_header = false;
  custom_payload_length = 0;
  custom_magic = 0;
  custom_rtp_timestamp = 0;
  custom_ssrc = 0;
  media_payload = f.payload;
}

module _ (h : AvtpHeader) (v : IsHeader h) (rest : List ℕ) where
  flags : ℕ
  flags =
      flag h.stream_id_valid 7
      + h.version * 2 ^ 4
      + flag h.media_clock_restart 3
      + flag h.timestamp_valid 0

  read_flags :
      ((flags / 2 ^ 7 % 2 == 1) ≡ h.stream_id_valid)
      × (flags / 2 ^ 4 % 2 ^ 3 ≡ h.version)
      × ((flags / 2 ^ 3 % 2 == 1) ≡ h.media_clock_restart)
      × ((flags % 2 == 1) ≡ h.timestamp_valid)
  unfolding flags
  read_flags = ground arith

  read_be64-be32 :
      read_be64
        (be32 (h.stream_id / 2 ^ 32) (be32 (h.stream_id % 2 ^ 32) (be32 h.avtp_timestamp rest)))
      ≡ h.stream_id
  unfolding read_be64
  read_be64-be32 = omega (arith, v.id_range)

  header_of-header_bytes : header_of (header_bytes h rest) ≡ h
  unfolding header_of flags
  header_of-header_bytes =
      let (f0, f1, f2, f3) = read_flags in
      let uncertain : (flag h.timestamp_uncertain 0 % 2 == 1) ≡ h.timestamp_uncertain =
        ground arith in
      λ i. record {
        subtype = h.subtype;
        stream_id_valid = f0 i;
        version = f1 i;
        media_clock_restart = f2 i;
        timestamp_valid = f3 i;
        sequence_num = h.sequence_num;
        timestamp_uncertain = uncertain i;
        stream_id = read_be64-be32 i;
        avtp_timestamp = read_u32-be32 h.avtp_timestamp rest v.timestamp_range i;
      }

module _ (prefix : EthernetPrefix) (h : AvtpHeader) (f : CvfFields) (padding : List ℕ)
    (v : IsHeader h) (event : f.event < 2 ^ 4) (size : length f.payload < 2 ^ 16) where
  last_flags : ℕ
  last_flags = flag f.payload_timestamp_valid 5 + flag f.marker 4 + f.event

  read_last_flags :
      ((last_flags / 2 ^ 5 % 2 == 1) ≡ f.payload_timestamp_valid)
      × ((last_flags / 2 ^ 4 % 2 == 1) ≡ f.marker)
      × (last_flags % 2 ^ 4 ≡ f.event)
  unfolding last_flags
  read_last_flags = ground arith

  behind_length : List ℕ
  behind_length = last_flags ∷ f.reserved_last ∷ (f.payload ++ padding)

  length_read : read_u16 (be16 (length f.payload) behind_length) ≡ length f.payload
  length_read = read_u16-be16 (length f.payload) behind_length size

  payload_read :
      take (read_u16 (be16 (length f.payload) behind_length)) (f.payload ++ padding) ≡ f.payload
  payload_read = rw length_read (take-append f.payload padding)

  cvf_packet-cvf_bytes : cvf_packet prefix (cvf_bytes h f padding) ≡ described prefix h f
  unfolding cvf_packet behind_length last_flags
  cvf_packet-cvf_bytes =
      let (f0, f1, f2) = read_last_flags in
      λ i. record {
        prefix = prefix;
        header =
            header_of-header_bytes h v
              (2
                ∷ f.format_subtype
                ∷ f.reserved_high
                ∷ f.reserved_low
                ∷ be16 (length f.payload) behind_length)
              i;
        format = 2;
        format_subtype = f.format_subtype;
        stream_data_length = length_read i;
        payload_timestamp_valid = f0 i;
        marker = f1 i;
        event = f2 i;
        payload = payload_read i;
        has_custom_payload_header = false;
        custom_payload_length = 0;
        custom_magic = 0;
        custom_rtp_timestamp = 0;
        custom_ssrc = 0;
        media_payload = payload_read i;
      }

  -- A CVF packet of IEEE 1722, subtype 3 and version 0, is read back field by field, whatever padding
  -- follows it; then the vendor header is looked for.
  pub parse_cvf_pdu-cvf_bytes :
      h.subtype ≡ 3
      → h.version ≡ 0
      → parse_cvf_pdu prefix (cvf_bytes h f padding)
        ≡ ok (strip_custom_header (described prefix h f))
  unfolding parse_cvf_pdu behind_length last_flags
  parse_cvf_pdu-cvf_bytes subtype version =
      ground (
        arith,
        length_read,
        read_flags h v [],
        cvf_packet-cvf_bytes,
        length-append f.payload padding,
      )
