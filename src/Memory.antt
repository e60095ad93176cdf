-- ===== src/Memory.antt =====
-- The memory that the parser's data lives in: src/Allocator.cpp.
pub mod Pool
pub mod Overlap
mod Tests
