-- ===== src/Client.antt =====
-- Clients of study-linux-kernel/socket/: they read the terminal and talk to a server.
pub mod Select
pub mod Stream
pub mod Tcp
pub mod Chat
pub mod Local
