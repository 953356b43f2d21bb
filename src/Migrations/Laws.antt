-- ===== src/Migrations/Laws.antt =====
-- On the migrations under alembic/versions, over the tables that they do not own.
use bookmarks_api.Prelude.{◌≡◌, refl, ap, true, false, none, some, List, [], ◌∷◌, ◌++◌}
use bookmarks_api.Text.{Text, codes, text_eq}
use bookmarks_api.Migrations.{
  ColumnType, Column, Op, create_table, create_index, drop_table, drop_index, add_column,
  drop_column, alter_column, Table, Index, Schema, find_table, find_index, refers_to, is_referenced,
  remove_table, remove_index, change_table, indexes_without, remove_column, change_type, apply, run,
}
use bookmarks_api.Migrations.Revisions.{
  index, users, tags, bookmarks, bookmark_tags, users_table, tags_table, bookmarks_table,
  bookmark_tags_table, upgrade_initial, downgrade_initial, upgrade_version, downgrade_version,
  upgrade_url_len, downgrade_url_len, upgrades, downgrades,
}
use bookmarks_api.Migrations.Metadata.{
  metadata, user_model, tag_model, bookmark_model, association_model,
}

abbrev pub IsApart : Text → Schema → Type 0
IsApart name s =
    (find_table name s.tables ≡ none)
    × (is_referenced name s.tables ≡ false)
    × (indexes_without name s.indexes ≡ s.indexes)

-- A schema that has nothing to do with the tables of the program.
pub record IsFresh (s : Schema) : Type 0 where
  pub users : IsApart users s
  pub tags : IsApart tags s
  pub bookmarks : IsApart bookmarks s
  pub bookmark_tags : IsApart bookmark_tags s
  pub username : find_index (codes "ix_users_username") s.indexes ≡ none
  pub email : find_index (codes "ix_users_email") s.indexes ≡ none
  pub name : find_index (codes "ix_tags_name") s.indexes ≡ none
  pub user_id : find_index (codes "ix_bookmarks_user_id") s.indexes ≡ none
  pub created_at : find_index (codes "ix_bookmarks_created_at") s.indexes ≡ none
  pub user_created : find_index (codes "ix_bookmarks_user_created") s.indexes ≡ none

-- The schema with the tables and the indexes of the models.
abbrev pub with_models : Schema → Schema
with_models s = record {
  tables = metadata.tables ++ s.tables;
  indexes = metadata.indexes ++ s.indexes;
}

-- A run of operations that all go through.
data Runs (out : Schema) : List Op → Schema → Type 0 where
  done : Runs out [] out
  step :
      {op : Op} {ops : List Op} {s s' : Schema}
      → apply op s ≡ some s'
      → Runs out ops s'
      → Runs out (op ∷ ops) s

run-Runs : {out : Schema} {ops : List Op} {s : Schema} → Runs out ops s → run ops s ≡ some out
unfolding run
run-Runs done = refl
run-Runs (step h rest) = rw (h, run) (run-Runs rest)

created_table :
    (t : Table) (s : Schema)
    → find_table t.name s.tables ≡ none
    → apply (create_table t) s ≡ some (record s { tables = t ∷ s.tables })
unfolding apply
created_table t s h = rw (h, apply) refl

created_index :
    (i : Index) (s : Schema) {t : Table}
    → find_index i.name s.indexes ≡ none
    → find_table i.table s.tables ≡ some t
    → apply (create_index i) s ≡ some (record s { indexes = i ∷ s.indexes })
unfolding apply
created_index i s h k = rw (h, k, apply) refl

dropped_table :
    (name : Text) (s : Schema) {t : Table}
    → find_table name s.tables ≡ some t
    → is_referenced name (remove_table name s.tables) ≡ false
    → indexes_without name s.indexes ≡ s.indexes
    → apply (drop_table name) s ≡ some (record s { tables = remove_table name s.tables })
unfolding apply
dropped_table name s h k e = rw (h, k, e, apply) refl

dropped_index :
    (name : Text) (s : Schema) {i : Index}
    → find_index name s.indexes ≡ some i
    → apply (drop_index name) s ≡ some (record s { indexes = remove_index name s.indexes })
unfolding apply
dropped_index name s h = rw (h, apply) refl

added_column :
    (name : Text) (col : Column) (s : Schema) {t : Table}
    → find_table name s.tables ≡ some t
    → apply (add_column name col) s
      ≡ some (record s {
        tables = change_table name (λ t. record t { columns = t.columns ++ col ∷ [] }) s.tables;
      })
unfolding apply
added_column name col s h = rw (h, apply) refl

dropped_column :
    (name col : Text) (s : Schema) {t : Table}
    → find_table name s.tables ≡ some t
    → apply (drop_column name col) s
      ≡ some (record s {
        tables =
            change_table name (λ t. record t { columns = remove_column col t.columns }) s.tables;
      })
unfolding apply
dropped_column name col s h = rw (h, apply) refl

altered_column :
    (name col : Text) (type : ColumnType) (s : Schema) {t : Table}
    → find_table name s.tables ≡ some t
    → apply (alter_column name col type) s
      ≡ some (record s {
        tables =
            change_table name (λ t. record t { columns = change_type col type t.columns }) s.tables;
      })
unfolding apply
altered_column name col type s h = rw (h, apply) refl

behind : (own : List Index) {is js : List Index} → is ≡ js → own ++ is ≡ own ++ js
behind own h = ap (λ rest. own ++ rest) h

-- The indexes that are left when a table is dropped.
abbrev with_users : List Index
with_users =
    index (codes "ix_users_email") users (codes "email" ∷ []) true
    ∷ index (codes "ix_users_username") users (codes "username" ∷ []) true
    ∷ []

abbrev with_tags : List Index
with_tags = index (codes "ix_tags_name") tags (codes "name" ∷ []) true ∷ with_users

abbrev with_bookmarks : List Index
with_bookmarks =
    index (codes "ix_bookmarks_created_at") bookmarks (codes "created_at" ∷ []) false
    ∷ index (codes "ix_bookmarks_user_id") bookmarks (codes "user_id" ∷ []) false
    ∷ with_tags

module _ (s : Schema) (f : IsFresh s) where
  upgrades-Runs : Runs (with_models s) upgrades s
  unfolding upgrades upgrade_initial upgrade_version upgrade_url_len find_table find_index
      change_table change_type users_table tags_table bookmarks_table bookmark_tags_table metadata
      user_model tag_model bookmark_model association_model text_eq codes
  upgrades-Runs = step (created_table users_table s f.users.0) (
      step (created_index _ _ f.username refl) (
        step (created_index _ _ f.email refl) (
          step (created_table tags_table _ f.tags.0) (
            step (created_index _ _ f.name refl) (
              step (created_table bookmarks_table _ f.bookmarks.0) (
                step (created_index _ _ f.user_id refl) (
                  step (created_index _ _ f.created_at refl) (
                    step (created_table bookmark_tags_table _ f.bookmark_tags.0) (
                      step (added_column _ _ _ refl) (
                        step (altered_column _ _ _ _ refl)
                          (step (created_index _ _ f.user_created refl) done)))))))))))

  -- Over tables that have nothing to do with the program's, the upgrades go through and leave
  -- exactly the tables, columns, keys and indexes that the models declare.
  pub run-upgrades : run upgrades s ≡ some (with_models s)
  run-upgrades = run-Runs upgrades-Runs

  downgrades-Runs : Runs s downgrades (with_models s)
  unfolding downgrades downgrade_initial downgrade_version downgrade_url_len find_table find_index
      remove_table remove_index is_referenced refers_to indexes_without remove_column change_table
      change_type metadata user_model tag_model bookmark_model association_model text_eq codes
  downgrades-Runs = step (dropped_index _ _ refl) (
      step (altered_column _ _ _ _ refl) (
        step (dropped_column _ _ _ refl) (
          step
            (dropped_table bookmark_tags _ refl f.bookmark_tags.1
              (behind with_bookmarks f.bookmark_tags.2))
            (step (dropped_index _ _ refl) (
              step (dropped_index _ _ refl) (
                step (dropped_table bookmarks _ refl f.bookmarks.1 (behind with_tags f.bookmarks.2))
                  (step (dropped_index _ _ refl) (
                    step (dropped_table tags _ refl f.tags.1 (behind with_users f.tags.2)) (
                      step (dropped_index _ _ refl) (
                        step (dropped_index _ _ refl)
                          (step (dropped_table users _ refl f.users.1 f.users.2) done)))))))))))

  -- The downgrades take the tables of the models away again and leave what was there.
  pub run-downgrades : run downgrades (with_models s) ≡ some s
  run-downgrades = run-Runs downgrades-Runs
