-- ===== src/Client.antt =====
-- example/04-go-http-client: a client of the server.
pub mod Base64
pub mod Token
pub mod Requests
pub mod Session
pub mod Served
