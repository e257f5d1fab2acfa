-- ===== src/Pages.antt =====
-- The pages: frontend/src/pages, and the components that are parts of one page.
pub mod MemoryGraph
pub mod Settings
pub mod Approvals
pub mod Runtime
pub mod Dashboard
