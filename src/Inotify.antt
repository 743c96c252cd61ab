-- ===== src/Inotify.antt =====
-- study-linux-kernel/monitoring-files: two programs over the inotify interface, which share the walk
-- over a buffer of events.
pub mod Buffer
pub mod Encoding
pub mod Progress
pub mod Watch
pub mod MatchDir
