-- ===== src/Pes.antt =====
-- src/pes/: packetized elementary streams.
pub mod Golomb
pub mod Es
pub mod Names
pub mod Audio
pub mod Nal
pub mod Reader
pub mod Sps
pub mod Parser
