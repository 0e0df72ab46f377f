-- ===== src/Rtp.antt =====
-- src/rtp: RTP packets, the builders that write them, and what reads them back.
pub mod Header
pub mod Packet
pub mod H264Builder
pub mod Assembler
pub mod Loopback
pub mod Receiver
pub mod AacBuilder
pub mod Transmitter
pub mod VideoSession
pub mod AudioSession
