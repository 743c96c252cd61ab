-- ===== src/Http.antt =====
-- study-linux-kernel/socket/socket-server-http-select.cpp: a server of HTTP over `select`, with a
-- thread that accepts and one that serves.
pub mod Text
pub mod Request
pub mod Response
pub mod Server
