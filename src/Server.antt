-- ===== src/Server.antt =====
-- cmd/server/main.go and internal/server/server.go: the start of the server, and its process.
pub mod Start
pub mod Process
pub mod Started
pub mod Outputs
pub mod Origin
pub mod Answers
pub mod LastSeen
pub mod Dispatches
pub mod Notices
