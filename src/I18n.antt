-- ===== src/I18n.antt =====
-- Languages and texts: frontend/src/lib/i18n.
pub mod Registry
pub mod Detect
pub mod Interpolate
pub mod Catalogue
pub mod Notation
pub mod Locales
