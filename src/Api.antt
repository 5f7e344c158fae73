-- ===== src/Api.antt =====
-- api/server.go and api/middleware.go: the HTTP interface.
pub mod Limiter
pub mod Http
pub mod Middleware
pub mod Server
