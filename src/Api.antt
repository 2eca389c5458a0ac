-- ===== src/Api.antt =====
-- internal/server/api: the handlers, the middleware and the router of the HTTP server.
pub mod Responses
pub mod Ingest
pub mod Query
pub mod Status
pub mod Router
