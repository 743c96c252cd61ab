-- ===== src/Pipe.antt =====
-- study-linux-kernel/ipc-pipe: processes that talk through a pipe.
pub mod Primer
pub mod Sync
pub mod Filter
