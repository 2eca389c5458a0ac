-- ===== src/Logtail.antt =====
-- internal/agent/logtail: tailing log files, and the level of a line.
pub mod Level
pub mod Lines
pub mod Tailer
pub mod Chunks
pub mod Entries
pub mod Rejected
pub mod Reading
pub mod Run
