-- ===== src/Lib.antt =====
-- The protocol and timing core of video-pipeline, a C++ media pipeline: AVTP frames and encoded access
-- units come in, RTP packets go out, and frames are shown on a media clock. Paths are from the
-- repository's root.
--
-- - Base: the names that all files share; lists, Boolean tests and integers (Base/Int) over native
--   numbers; texts (Base/Text) and the low bytes of bitwise operations (Base/Xor).
-- - Media, the output side of src/media/protocol. Media/Wire has big-endian reads and writes, and
--   `Buffer`, a data pointer with a size that may be null. Media/Rtcp is rtcp_packet_codec.cpp
--   (BuildSenderReport, ReadReportBlock, ParseCompound). Media/Bitstream is h264_bitstream.cpp
--   (SplitAnnexB, SplitAvcc, SplitPacket, ExtractParameterSets, Base64Encode). Media/Packetizer is
--   h264_rtp_packetizer.cpp and audio_rtp_packetizer.cpp, which cut the access units that the
--   bitstream code prepares into payloads. Media/RtpSender is rtp_sender.cpp, which puts the RTP
--   header in front of a payload and calls the RTCP codec for sender reports.
-- - Avtp, the input side (src/media/protocol/avtp). Avtp/Parser is avtp_packet_parser.cpp;
--   Avtp/Assembler is avtp_payload_assembler.cpp, which joins the parsed payloads into access units;
--   Avtp/TimestampMapper is avtp_timestamp_mapper.cpp, which gives them times.
-- - Render (src/render). Render/PtsNormalizer is video_pts_normalizer.cpp, Render/AvSync is
--   av_sync_controller.cpp, Render/PlaybackClock is playback_clock.cpp and media_clock.cpp,
--   Render/FillPolicy is audio/audio_buffer_fill_policy.cpp and Render/PcmQueue is
--   audio/audio_pcm_queue.cpp, on a library's queue that is the parameter `Storage`: a frame's
--   PTS is normalized, and then compared with the clock's position.
--
-- - Mediaflow (src/mediaflow/media_timing.cpp and .h). Mediaflow/UnifiedClock is the clock that the
--   tracks share, Mediaflow/VideoScheduler decides on video frames by a snapshot of it, and
--   Mediaflow/Interleaver orders the packets of several tracks by DTS. Mediaflow/Timing is their
--   saturating arithmetic on int64_t.
-- - Rtsp (src/media/protocol/rtsp). Rtsp/RequestParser is RtspRequestParser::Parse of
--   rtsp_request_parser.cpp, and Rtsp/Lexical is the functions of that file on characters, numbers and
--   lines. Rtsp/Connection is the read side of rtsp_connection.cpp, a loop over requests and interleaved
--   frames that calls the parser; what the handlers answer is a parameter. Rtsp/Writes is
--   the write queue of that file, with the completions of the socket's writes as steps. Rtsp/Sessions is
--   RtspSessionManager of rtsp_session.cpp; its locked sections are the steps of a relation, in
--   Rtsp/Sessions/Interleaving, so that any number of threads may run it, where Clear is a step only while
--   no Create is under way: src/media/protocol/rtsp_server_protocol.cpp calls it behind the join of the
--   thread that accepts. Rtsp/Auth is
--   RtspClientSession::AuthenticateRequest of that file with SendUnauthorized and what they call, on the
--   MD5 of Boost as the parameter `md5_hex`; the loop of ParseDigestParameters has a round for each
--   character and one more, and each of its rounds takes a character.
--
-- Each file of a component holds its state as a record and one function per function of the source,
-- under its name; the files below it hold the theorems, and its Examples apply them at concrete
-- inputs. A member function takes the object as its first argument and returns the next one. Bytes and
-- unsigned integers are natural numbers with their wrap-around written out; fields that the source
-- joins by `|` do not overlap and are added. Times of type int64_t are integers without bounds,
-- but in Mediaflow, where the source saturates them, and in PlaybackClock, whose sum wraps around. A
-- failure with an error code is `Parsed`, a missing value `Option`. Every read of a clock is an
-- argument. Where the source walks an index over a buffer, the model passes the rest of the buffer.
--
-- Loops that eat at least one byte a round run on fuel equal to the number of bytes, which is enough:
-- the theorems hold for every input, with no assumption on fuel. The loop over header lines runs one
-- round more than there are bytes, the one of DtsInterleaver as many as packets wait. The VLAN loop has
-- the bound of the source, two tags. The loop over a connection's read buffer runs one round more than
-- there are bytes, and more rounds change nothing.
--
-- Not modelled: names and reasons for log messages, random initial SSRC and sequence numbers, copies of counters
-- for statistics; sockets, threads, FFmpeg, OpenGL, WASAPI and inference, which are calls of other
-- libraries; TimestampToMicroseconds, which computes in long double; the H.264 assembler, the jitter
-- buffer, what one RTSP client's session does behind its login, and the media graph.
pub mod Base
pub mod Media
pub mod Avtp
pub mod Render
pub mod Mediaflow
pub mod Rtsp
