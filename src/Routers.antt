-- ===== src/Routers.antt =====
-- app/routers: the handlers over the services.
pub mod Bookmarks
pub mod Auth
pub mod Stats
