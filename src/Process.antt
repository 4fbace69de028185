-- ===== src/Process.antt =====
-- Child processes: python/rsyscall/sys/wait.py, handle/process.py and the AsyncChildProcess of
-- monitor.py.
pub mod Wait
pub mod Child
pub mod Monitor
mod Examples
