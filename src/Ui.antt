-- ===== src/Ui.antt =====
-- The shared components of the frontend: the error views and the theme.
pub mod States
pub mod Theme
pub mod Toast
pub mod StatusBadge
pub mod Connection
