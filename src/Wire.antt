-- ===== src/Wire.antt =====
-- rust/telesthete/src/wire: the formats inside a packet's plaintext.
pub mod StreamHeader
pub mod Dmabuf
pub mod Fragment
pub mod Reassembler
mod Tests
