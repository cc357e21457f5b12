-- ===== src/Media/Packetizer/Examples.antt =====
-- The packetizers on small access units: the theorems at concrete arguments.
use video_pipeline.Base.{ℕ, ◌≡◌, List, [], ◌∷◌, ◌++◌, arith}
use video_pipeline.Base.Int.{pos, negsuc}
use video_pipeline.Media.Wire.{bytes}
use video_pipeline.Media.Bitstream.{NalUnit}
use video_pipeline.Media.Packetizer.{EncodedAccessUnit, h264, aac, packetize_h264}
use video_pipeline.Media.Packetizer.Receiver.{receive, receive-packetize_h264}

abbrev two_nals : List NalUnit
two_nals = (0x67 ∷ 66 ∷ 0 ∷ 0 ∷ 7 ∷ []) ∷ (0x65 ∷ 1 ∷ 2 ∷ []) ∷ []

abbrev frame : EncodedAccessUnit
frame = record { codec_type = h264; pts = pos 3000; encoded_data = bytes []; nals = two_nals }

receive-packetize_h264_example : receive (packetize_h264 4 frame) [] ≡ two_nals
receive-packetize_h264_example =
    receive-packetize_h264 4 frame
      ((omega arith, omega arith, omega arith), ((omega arith, omega arith, omega arith), tt))

abbrev adts : List ℕ
adts = 0xff ∷ 0xf1 ∷ 0x50 ∷ 0x80 ∷ 1 ∷ 0x3f ∷ 0xfc ∷ []

abbrev sound : EncodedAccessUnit
sound = record {
  codec_type = aac;
  pts = negsuc 0;
  encoded_data = bytes (adts ++ (8 ∷ 9 ∷ []));
  nals = [];
}
