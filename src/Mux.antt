-- ===== src/Mux.antt =====
-- src/mux.rs: the multiplexer. The children model its clock arithmetic, its output buffers, the PCR
-- restamper, stream synchronisation, and the two sides of PacketHandler.
pub mod Timing
pub mod Sync
pub mod Buffer
pub mod Restamper
pub mod Handler
pub mod Output
pub mod Input
pub mod Proxy
