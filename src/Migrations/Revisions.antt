-- ===== src/Migrations/Revisions.antt =====
-- The three revisions under alembic/versions, and their order by `down_revision`.
use bookmarks_api.Prelude.{Bool, true, false, none, some, List, [], ◌∷◌, ◌++◌}
use bookmarks_api.Text.{Text, codes}
use bookmarks_api.Migrations.{
  ColumnType, integer, timestamp, string, Column, Table, Index, Op, create_table, drop_table,
  create_index, drop_index, add_column, drop_column, alter_column,
}

abbrev pub users : Text
users = codes "users"

abbrev pub tags : Text
tags = codes "tags"

abbrev pub bookmarks : Text
bookmarks = codes "bookmarks"

abbrev pub bookmark_tags : Text
bookmark_tags = codes "bookmark_tags"

-- A column that is not null and has no default.
abbrev pub required : Text → ColumnType → Column
required name type = record { name = name; type = type; nullable = false; server_default = none }

-- A time that the database sets.
abbrev pub stamped : Text → Column
stamped name = record {
  name = name;
  type = timestamp;
  nullable = false;
  server_default = some (codes "now()");
}

abbrev pub index : Text → Text → List Text → Bool → Index
index name table columns unique = record {
  name = name;
  table = table;
  columns = columns;
  unique = unique;
}

unfoldable pub users_table : Table
users_table = record {
  name = users;
  columns =
      required (codes "id") integer
      ∷ required (codes "username") (string 80)
      ∷ required (codes "email") (string 255)
      ∷ required (codes "password_hash") (string 255)
      ∷ stamped (codes "created_at")
      ∷ [];
  primary_key = codes "id" ∷ [];
  foreign_keys = [];
}

unfoldable pub tags_table : Table
tags_table = record {
  name = tags;
  columns = required (codes "id") integer ∷ required (codes "name") (string 50) ∷ [];
  primary_key = codes "id" ∷ [];
  foreign_keys = [];
}

unfoldable pub bookmarks_table : Table
bookmarks_table = record {
  name = bookmarks;
  columns =
      required (codes "id") integer
      ∷ required (codes "url") (string 2048)
      ∷ required (codes "title") (string 200)
      ∷ record (required (codes "description") (string 500)) { nullable = true }
      ∷ required (codes "user_id") integer
      ∷ stamped (codes "created_at")
      ∷ stamped (codes "updated_at")
      ∷ [];
  primary_key = codes "id" ∷ [];
  foreign_keys =
      record { column = codes "user_id"; target = users; ondelete = some (codes "CASCADE") } ∷ [];
}

unfoldable pub bookmark_tags_table : Table
bookmark_tags_table = record {
  name = bookmark_tags;
  columns = required (codes "bookmark_id") integer ∷ required (codes "tag_id") integer ∷ [];
  primary_key = codes "bookmark_id" ∷ codes "tag_id" ∷ [];
  foreign_keys =
      record { column = codes "bookmark_id"; target = bookmarks; ondelete = some (codes "CASCADE") }
      ∷ record { column = codes "tag_id"; target = tags; ondelete = some (codes "CASCADE") }
      ∷ [];
}

-- `upgrade` of 0001_initial
unfoldable pub upgrade_initial : List Op
unfolding users_table tags_table bookmarks_table bookmark_tags_table
upgrade_initial =
    create_table users_table
    ∷ create_index (index (codes "ix_users_username") users (codes "username" ∷ []) true)
    ∷ create_index (index (codes "ix_users_email") users (codes "email" ∷ []) true)
    ∷ create_table tags_table
    ∷ create_index (index (codes "ix_tags_name") tags (codes "name" ∷ []) true)
    ∷ create_table bookmarks_table
    ∷ create_index (index (codes "ix_bookmarks_user_id") bookmarks (codes "user_id" ∷ []) false)
    ∷ create_index
        (index (codes "ix_bookmarks_created_at") bookmarks (codes "created_at" ∷ []) false)
    ∷ create_table bookmark_tags_table
    ∷ []

-- `downgrade` of 0001_initial
unfoldable pub downgrade_initial : List Op
downgrade_initial =
    drop_table bookmark_tags
    ∷ drop_index (codes "ix_bookmarks_created_at")
    ∷ drop_index (codes "ix_bookmarks_user_id")
    ∷ drop_table bookmarks
    ∷ drop_index (codes "ix_tags_name")
    ∷ drop_table tags
    ∷ drop_index (codes "ix_users_email")
    ∷ drop_index (codes "ix_users_username")
    ∷ drop_table users
    ∷ []

-- 0002_bookmark_version
unfoldable pub upgrade_version : List Op
upgrade_version =
    add_column bookmarks
      (record (required (codes "version") integer) { server_default = some (codes "1") })
    ∷ []

unfoldable pub downgrade_version : List Op
downgrade_version = drop_column bookmarks (codes "version") ∷ []

-- 0003_url_len_and_index
unfoldable pub upgrade_url_len : List Op
upgrade_url_len =
    alter_column bookmarks (codes "url") (string 2083)
    ∷ create_index (
        index (codes "ix_bookmarks_user_created") bookmarks
          (codes "user_id" ∷ codes "created_at" ∷ []) false)
    ∷ []

unfoldable pub downgrade_url_len : List Op
downgrade_url_len =
    drop_index (codes "ix_bookmarks_user_created")
    ∷ alter_column bookmarks (codes "url") (string 2048)
    ∷ []

-- `upgrade head` of an empty database, and `downgrade base` back.
unfoldable pub upgrades : List Op
unfolding upgrade_initial upgrade_version upgrade_url_len
upgrades = upgrade_initial ++ upgrade_version ++ upgrade_url_len

unfoldable pub downgrades : List Op
unfolding downgrade_initial downgrade_version downgrade_url_len
downgrades = downgrade_url_len ++ downgrade_version ++ downgrade_initial
