-- ===== src/Agent.antt =====
-- internal/agent, but for its log tail: the retries of the senders, the loops of the agent and the
-- collectors.
pub mod Backoff
pub mod Sending
pub mod Loops
pub mod Network
pub mod Collectors
pub mod Accepted
pub mod Tick
pub mod Process
