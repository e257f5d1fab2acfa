-- ===== src/Api.antt =====
-- The client of the backend: frontend/src/lib/api.
pub mod Config
pub mod Client
pub mod Queries
