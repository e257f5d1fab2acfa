-- ===== src/Types.antt =====
-- The data that the frontend exchanges with the backend, one module per section of
-- frontend/src/lib/types.ts. An optional field is an `Option`, and `null` a second one.
pub mod Tasks
pub mod Memory
pub mod Workflows
pub mod Tools
pub mod Runtime
pub mod Integrations
pub mod Connectors
pub mod System
