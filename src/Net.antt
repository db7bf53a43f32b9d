-- ===== src/Net.antt =====
-- The packets and the ring buffer of src/native/net.
pub mod Queue
pub mod Ring
pub mod Framer
mod Tests
