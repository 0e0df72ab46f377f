-- ===== src/Tests.antt =====
-- Runs of the theorems at concrete inputs: packets, builders, receivers and streams.
mod Data
mod Packets
mod Builders
mod Streams
mod Services
mod Queues
mod Rooms
mod Texts
mod Codecs
mod Loggers
