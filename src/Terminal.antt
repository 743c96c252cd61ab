-- ===== src/Terminal.antt =====
-- study-linux-kernel/io-model/: programs that read the terminal, each by another way of waiting.
pub mod Epoll
pub mod Padding
pub mod Poll
pub mod Select
pub mod Padded
