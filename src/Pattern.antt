-- ===== src/Pattern.antt =====
-- Lua patterns: src/native/string/lua_pattern.cpp and lua_pattern.h. A `char` is a byte; a pointer into
-- the subject is its index, and one into the pattern is the list of the bytes from there on.
pub mod Class
pub mod Item
pub mod Match
pub mod Search
pub mod Relation
mod Answer
mod Shrink
mod Runs
pub mod Correct
mod Tests
