-- ===== src/BitStream.antt =====
-- crates/skysaga-proto/src/bitstream.rs.
pub mod Byte
pub mod Utf8
pub mod Writer
pub mod Reader
pub mod RoundTrip
pub mod Wire
pub mod Tests
