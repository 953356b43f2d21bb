-- ===== src/Migrations/Metadata.antt =====
-- app/models: the tables of `Base.metadata`, with the indexes that `index=True` names.
use bookmarks_api.Prelude.{true, false, some, [], ◌∷◌}
use bookmarks_api.Text.{codes}
use bookmarks_api.Migrations.{integer, string, Table, Schema}
use bookmarks_api.Migrations.Revisions.{
  users, tags, bookmarks, bookmark_tags, required, stamped, index,
}

-- `User`
unfoldable pub user_model : Table
user_model = record {
  name = users;
  columns =
      required (codes "id") integer
      ∷ required (codes "username") (string 80)
      ∷ required (codes "email") (string 255)
      ∷ required (codes "password_hash") (string 255)
      ∷ stamped (codes "created_at")
      ∷ [];
  primary_key = codes "id" ∷ [];
  foreign_keys = [];
}

-- `Tag`
unfoldable pub tag_model : Table
tag_model = record {
  name = tags;
  columns = required (codes "id") integer ∷ required (codes "name") (string 50) ∷ [];
  primary_key = codes "id" ∷ [];
  foreign_keys = [];
}

-- `Bookmark`
unfoldable pub bookmark_model : Table
bookmark_model = record {
  name = bookmarks;
  columns =
      required (codes "id") integer
      ∷ required (codes "url") (string 2083)
      ∷ required (codes "title") (string 200)
      ∷ record (required (codes "description") (string 500)) { nullable = true }
      ∷ required (codes "user_id") integer
      ∷ stamped (codes "created_at")
      ∷ stamped (codes "updated_at")
      ∷ record (required (codes "version") integer) { server_default = some (codes "1") }
      ∷ [];
  primary_key = codes "id" ∷ [];
  foreign_keys =
      record { column = codes "user_id"; target = users; ondelete = some (codes "CASCADE") } ∷ [];
}

-- `bookmark_tags`
unfoldable pub association_model : Table
association_model = record {
  name = bookmark_tags;
  columns = required (codes "bookmark_id") integer ∷ required (codes "tag_id") integer ∷ [];
  primary_key = codes "bookmark_id" ∷ codes "tag_id" ∷ [];
  foreign_keys =
      record { column = codes "bookmark_id"; target = bookmarks; ondelete = some (codes "CASCADE") }
      ∷ record { column = codes "tag_id"; target = tags; ondelete = some (codes "CASCADE") }
      ∷ [];
}

-- `Base.metadata`
unfoldable pub metadata : Schema
unfolding user_model tag_model bookmark_model association_model
metadata = record {
  tables = association_model ∷ bookmark_model ∷ tag_model ∷ user_model ∷ [];
  indexes =
      index (codes "ix_bookmarks_user_created") bookmarks
        (codes "user_id" ∷ codes "created_at" ∷ []) false
      ∷ index (codes "ix_bookmarks_created_at") bookmarks (codes "created_at" ∷ []) false
      ∷ index (codes "ix_bookmarks_user_id") bookmarks (codes "user_id" ∷ []) false
      ∷ index (codes "ix_tags_name") tags (codes "name" ∷ []) true
      ∷ index (codes "ix_users_email") users (codes "email" ∷ []) true
      ∷ index (codes "ix_users_username") users (codes "username" ∷ []) true
      ∷ [];
}
