-- ===== src/Storage.antt =====
-- internal/server/storage: the host tracker, and the repositories of logs and metrics.
pub mod Hosts
pub mod Metrics
pub mod Logs
pub mod Batch
