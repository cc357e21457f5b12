-- ===== src/Media/Rtcp/Examples.antt =====
-- rtcp_packet_codec.cpp on small packets: the theorems at concrete arguments.
use video_pipeline.Base.{ℕ, ◌≡◌, refl, List, [], ◌∷◌, ◌++◌, arith, length}
use video_pipeline.Media.Wire.{bytes, All}
use video_pipeline.Media.Rtcp.{Packet, finished, parse_compound}
use video_pipeline.Media.Rtcp.Compound.{
  contents, IsPacket, Ends, parse_compound-Tiles, parse_compound-contents,
}

-- A receiver report without blocks, then a header of version 1.
abbrev receiver_report : List ℕ
receiver_report = 0x80 ∷ 201 ∷ 0 ∷ 1 ∷ 0 ∷ 0 ∷ 0 ∷ 7 ∷ []

abbrev bad_header : List ℕ
bad_header = 0x40 ∷ 201 ∷ 0 ∷ 0 ∷ []

abbrev report_packet : Packet
report_packet = record { packet_type = 201; report_count = 0; content = receiver_report }

report_packet-IsPacket : IsPacket report_packet
report_packet-IsPacket = record { version = refl; count = refl; kind = refl; words = refl }

parse_compound-Tiles_example :
    let r = parse_compound (bytes (receiver_report ++ bad_header)) in
    (tail : List ℕ) × All IsPacket r.packets
    × (contents r.packets ++ tail ≡ receiver_report ++ bad_header)
    × Ends tail (length (contents r.packets)) r
parse_compound-Tiles_example = parse_compound-Tiles (receiver_report ++ bad_header)

parse_compound-contents_example :
    parse_compound (bytes (contents (report_packet ∷ report_packet ∷ []) ++ (9 ∷ [])))
    ≡ finished (report_packet ∷ report_packet ∷ []) 1
parse_compound-contents_example =
    parse_compound-contents (report_packet ∷ report_packet ∷ []) (9 ∷ [])
      (report_packet-IsPacket, (report_packet-IsPacket, tt)) (omega arith)
