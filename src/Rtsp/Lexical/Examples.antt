-- ===== src/Rtsp/Lexical/Examples.antt =====
-- ParseUnsigned on concrete texts.
use video_pipeline.Base.{◌≡◌, some, arith}
use video_pipeline.Rtsp.Lexical.{codes, parse_unsigned}
use video_pipeline.Rtsp.Lexical.Numbers.{parse_unsigned_lem}

parse_unsigned_lem_example : parse_unsigned (codes "1048576") 1048576 ≡ some 1048576
parse_unsigned_lem_example = parse_unsigned_lem (codes "1048576") 1048576 (omega arith)
