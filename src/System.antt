-- ===== src/System.antt =====
-- The agent and the server together: what the agent's requests meet at the server's router.
pub mod Wire
pub mod Token
pub mod Delivery
