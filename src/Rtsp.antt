-- ===== src/Rtsp.antt =====
-- The RTSP server of src/media/protocol/rtsp: requests, logins, connections and sessions.
pub mod Lexical
pub mod RequestParser
pub mod Auth
pub mod Connection
pub mod Sessions
pub mod Writes
