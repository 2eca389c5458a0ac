-- ===== src/Model.antt =====
-- internal/model: what the agent sends and the server accepts.
pub mod Metric
pub mod Log
