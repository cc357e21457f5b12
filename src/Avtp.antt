-- ===== src/Avtp.antt =====
-- AVTP (IEEE 1722) reception: include/media/protocol/avtp, src/media/protocol/avtp.
pub mod Parser
pub mod Assembler
pub mod TimestampMapper
