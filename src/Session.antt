-- ===== src/Session.antt =====
-- The index of this session's records: frontend/src/lib/session-history.ts.
pub mod History
