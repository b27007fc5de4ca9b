-- ===== src/Psi.antt =====
-- src/psi: program specific information. The children model the section reassembler and packetiser
-- (src/psi/mod.rs) and the tables of src/psi/pat.rs, src/psi/pmt.rs, src/psi/sdt.rs, src/psi/eit.rs,
-- src/psi/tdt.rs and src/psi/tot.rs.
pub mod Section
pub mod Pack
pub mod Rounds
pub mod Reassembly
pub mod RoundTrip
pub mod Encode
pub mod Pat
pub mod Pmt
pub mod Changes
pub mod Sdt
pub mod Text
pub mod Time
pub mod Tdt
pub mod Tot
pub mod Eit
