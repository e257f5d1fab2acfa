-- ===== src/Workflow.antt =====
-- The workflows that a user draws: their check and their editor.
pub mod Cycle
pub mod Validate
pub mod StepForm
pub mod Editor
