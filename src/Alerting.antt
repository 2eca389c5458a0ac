-- ===== src/Alerting.antt =====
-- internal/server/alerting: threshold rules, their evaluation, and the notifications.
pub mod Rules
pub mod Parsing
pub mod Evaluator
pub mod Transitions
pub mod Soundness
pub mod Collision
pub mod Flapping
pub mod Notifications
