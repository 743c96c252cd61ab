-- ===== src/Socket.antt =====
-- study-linux-kernel/socket: servers and clients over stream and datagram sockets.
pub mod StreamServer
pub mod Worker
pub mod ThreadServer
pub mod ForkServer
pub mod ConnectionEnds
pub mod LocalServer
