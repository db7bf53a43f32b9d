-- ===== src/Wire.antt =====
-- The wire format of src/native/serialize/wire_codec.cpp: values to bytes and back.
pub mod Value
pub mod Zigzag
pub mod Reify
pub mod Encode
pub mod Decode
pub mod RoundTrip
pub mod Args
mod Tests
