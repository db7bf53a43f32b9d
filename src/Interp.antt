-- ===== src/Interp.antt =====
-- The register interpreter of src/interp: its numbers, its operations and its machine.
pub mod Word
pub mod Value
pub mod Ops
pub mod For
pub mod Frame
pub mod Machine
mod Tests
