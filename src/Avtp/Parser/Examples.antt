-- ===== src/Avtp/Parser/Examples.antt =====
-- avtp_packet_parser.cpp on small packets: the theorems at concrete arguments.
use video_pipeline.Base.{◌≡◌, refl, inl, true, false, [], ◌∷◌, arith}
use video_pipeline.Media.Wire.{bytes}
use video_pipeline.Avtp.Parser.{
  AvtpHeader, no_prefix, ok, ether_type_avtp, parse_cvf_pdu, parse, parse_aaf, parse_aaf_pdu,
  strip_custom_header,
}
use video_pipeline.Avtp.Parser.Cvf.{
  CvfFields, IsHeader, cvf_bytes, described, parse_cvf_pdu-cvf_bytes,
}
use video_pipeline.Avtp.Parser.Ethernet.{Mac, VlanTag, frame_bytes, prefix_of, parse-frame}
use video_pipeline.Avtp.Parser.Bounds.{Inside, parse_cvf_pdu-Inside}

abbrev header : AvtpHeader
header = record {
  subtype = 3;
  stream_id_valid = true;
  version = 0;
  media_clock_restart = false;
  timestamp_valid = true;
  sequence_num = 200;
  timestamp_uncertain = false;
  stream_id = 0x0011_2233_4455_0001;
  avtp_timestamp = 4_000_000_000;
}

header-IsHeader : IsHeader header
header-IsHeader = record {
  version_range = omega arith;
  id_range = omega arith;
  timestamp_range = omega arith;
}

abbrev fields : CvfFields
fields = record {
  format_subtype = 1;
  reserved_high = 0;
  reserved_low = 0;
  payload_timestamp_valid = false;
  marker = true;
  event = 2;
  reserved_last = 0;
  payload = 0x65 ∷ 1 ∷ 2 ∷ [];
}

parse_cvf_pdu-cvf_bytes_example :
    parse_cvf_pdu no_prefix (cvf_bytes header fields (0 ∷ 0 ∷ []))
    ≡ ok (strip_custom_header (described no_prefix header fields))
parse_cvf_pdu-cvf_bytes_example =
    parse_cvf_pdu-cvf_bytes no_prefix header fields (0 ∷ 0 ∷ []) header-IsHeader (omega arith)
      (omega arith) refl refl

parse_cvf_pdu-Inside_example :
    Inside
      (cvf_bytes header fields (0 ∷ 0 ∷ []))
      (strip_custom_header (described no_prefix header fields))
parse_cvf_pdu-Inside_example =
    parse_cvf_pdu-Inside no_prefix (cvf_bytes header fields (0 ∷ 0 ∷ [])) (
      parse_cvf_pdu-cvf_bytes no_prefix header fields (0 ∷ 0 ∷ []) header-IsHeader (omega arith)
        (omega arith) refl refl)

abbrev mac : Mac
mac = record { m0 = 1; m1 = 2; m2 = 3; m3 = 4; m4 = 5; m5 = 6 }

abbrev tag : VlanTag
tag = record { tag_type = 0x8100; control = 0x6002 }

parse-frame_example :
    (parse (bytes (frame_bytes mac mac (tag ∷ []) ether_type_avtp (3 ∷ 0 ∷ [])))
      ≡ parse_cvf_pdu (prefix_of mac mac (tag ∷ [])) (3 ∷ 0 ∷ []))
    × (parse_aaf (bytes (frame_bytes mac mac (tag ∷ []) ether_type_avtp (3 ∷ 0 ∷ [])))
        ≡ parse_aaf_pdu (prefix_of mac mac (tag ∷ [])) (3 ∷ 0 ∷ []))
parse-frame_example =
    parse-frame mac mac (tag ∷ []) (3 ∷ 0 ∷ []) ((inl refl, omega arith), tt) (omega arith)
