-- ===== src/Browser.antt =====
-- What the browser gives the program: storage and the page's location.
pub mod Storage
pub mod Location
