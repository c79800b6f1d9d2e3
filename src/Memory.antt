-- ===== src/Memory.antt =====
-- src/memory and include/memory.
pub mod Allocator
pub mod Arena
pub mod Pool
pub mod Sample
pub mod LeakDetect
