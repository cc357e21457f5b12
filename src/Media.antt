-- ===== src/Media.antt =====
-- The media library's protocol code (include/media/protocol, src/media/protocol).
pub mod Wire
pub mod Rtcp
pub mod Bitstream
pub mod Packetizer
pub mod RtpSender
