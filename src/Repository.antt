-- ===== src/Repository.antt =====
-- app/repositories: the queries and the commits, over the tables of the database.
pub mod Users
pub mod Tags
pub mod Queries
pub mod Bookmarks
pub mod Stats
