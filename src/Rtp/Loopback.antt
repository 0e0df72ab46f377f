-- ===== src/Rtp/Loopback.antt =====
-- The receiving side applied to what the sending side builds.
pub mod Parse
pub mod Units
pub mod Fragments
pub mod Stream
pub mod Transport
pub mod Payloads
pub mod EndToEnd
pub mod Last
