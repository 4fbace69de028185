-- ===== src/Memory.antt =====
-- python/rsyscall/memory
pub mod Arena
pub mod Allocator
pub mod Batch
pub mod Socket
