-- ===== src/Integrations.antt =====
-- The page of the integrations and its dialogs: frontend/src/pages/Integrations.tsx and
-- frontend/src/components/integrations.
pub mod Browse
pub mod AddServer
pub mod Drawer
