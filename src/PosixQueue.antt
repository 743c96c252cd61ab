-- ===== src/PosixQueue.antt =====
-- study-linux-kernel/ipc-posix-queue/. What `getopt` finds on the command line is given: the options in
-- their order, with their arguments, and the arguments behind them.
pub mod Create
pub mod Send
pub mod Calling
