-- ===== src/Datagram.antt =====
-- Servers and clients of study-linux-kernel/socket/ that exchange datagrams.
pub mod EchoServer
pub mod EchoClient
pub mod Echoing
pub mod BaseServer
pub mod BaseClient
pub mod Names
pub mod LocalServer
pub mod LocalClient
pub mod Returning
pub mod Overlong
pub mod Asking
