-- ===== src/Tagging.antt =====
-- The tags of a bookmark after a request that assigns them: `create` and `update` of
-- app/services/bookmark/service.py over the tables of app/models.
pub mod Rows
pub mod Others
pub mod Links
pub mod Reading
pub mod Creation
pub mod Update
