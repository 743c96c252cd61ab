-- ===== src/ReadyList.antt =====
-- The list of ready descriptors of study-linux-kernel/io-model/terminal-io-epoll-et.c: a growing
-- array that a loop over edge-triggered events keeps. The children prove.
pub mod Defs
pub mod Content
pub mod Add
pub mod Remove
