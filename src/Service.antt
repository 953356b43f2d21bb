-- ===== src/Service.antt =====
-- app/services
pub mod Bookmarks
pub mod Auth
