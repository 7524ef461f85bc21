-- ===== src/Itch.antt =====
-- luv_decode_itch.hpp: the big-endian readers, the ticker table and the ITCH 5.0 decoder.
mod Tests
pub mod Bytes
pub mod Symbols
pub mod Decode
pub mod Locality
pub mod Agreement
