-- ===== src/Api.antt =====
-- api/: what guards the HTTP interface.
pub mod RateLimit
