-- ===== src/FileIo.antt =====
-- study-linux-kernel/file-io and the pipe programs in C of study-linux-kernel/ipc-pipe.
pub mod Copy
