-- ===== src/Handle.antt =====
-- python/rsyscall/handle
pub mod Fd
pub mod Pointer
