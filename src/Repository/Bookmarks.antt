-- ===== src/Repository/Bookmarks.antt =====
-- The commits of app/repositories/bookmark/repository.py, with the optimistic lock that SQLAlchemy
-- makes of `version_id_col`. A commit is atomic: a failed one leaves the tables as they were.
pub mod Rows
use bookmarks_api.Prelude.{
  ℕ, ◌+◌, Bool, true, false, not, ◌&&◌, ◌||◌, Option, none, some, List, [], ◌∷◌, ◌++◌, map, find,
  select, ◌==◌, if◌then◌else◌,
}
use bookmarks_api.Text.{Text, text_eq}
use bookmarks_api.Models.{User, Tag, Bookmark, Link, Db, Engine, has_id}
use bookmarks_api.Repository.Queries.{is_linked}
use bookmarks_api.Result.{Result, ok, raise, integrity_error, stale_version_error}

abbrev pub tag_ids : List Tag → List ℕ
tag_ids = map (λ (t : Tag). t.id)

-- `INSERT INTO bookmark_tags`, refused by the primary key on a pair that is there.
unfoldable pub insert_links : ℕ → List Tag → List Link → Option (List Link)
insert_links bookmark_id [] links = some links
insert_links bookmark_id (t ∷ ts) links =
    let rest =
      insert_links bookmark_id ts
        (links ++ record { bookmark_id = bookmark_id; tag_id = t.id } ∷ []) in
    if is_linked links bookmark_id t.id then none else rest

-- `DELETE FROM bookmark_tags` of one pair
unfoldable pub remove_link : ℕ → ℕ → List Link → List Link
remove_link bookmark_id tag_id =
    select (λ (l : Link). not (l.bookmark_id == bookmark_id && l.tag_id == tag_id))

-- The same for each tag: a pair that is gone is a `StaleDataError`.
unfoldable pub delete_links : ℕ → List Tag → List Link → Option (List Link)
delete_links bookmark_id [] links = some links
delete_links bookmark_id (t ∷ ts) links =
    let rest = delete_links bookmark_id ts (remove_link bookmark_id t.id links) in
    if is_linked links bookmark_id t.id then rest else none

-- The tags of `ts` that are not in `us`.
unfoldable pub tags_without : List Tag → List Tag → List Tag
tags_without us = select (λ (t : Tag). not (has_id t.id (tag_ids us)))

-- `bookmark.tags = new_tags` at the flush: the pairs that go and the pairs that come.
unfoldable pub relink : ℕ → List Tag → List Tag → List Link → Option (List Link)
unfolding tags_without
relink bookmark_id old_tags new_tags links =
    elim (delete_links bookmark_id (tags_without new_tags old_tags) links) [
      | none ↦ none
      | some rest ↦ insert_links bookmark_id (tags_without old_tags new_tags) rest
    ]

-- The links after the flush; without an assignment they stay.
unfoldable pub new_links : ℕ → List Tag → Option (List Tag) → List Link → Option (List Link)
unfolding relink
new_links bookmark_id old_tags none links = some links
new_links bookmark_id old_tags (some tags) links = relink bookmark_id old_tags tags links

-- A column of the UPDATE: one whose value the program did not change is left out.
abbrev pub written : Text → Text → Text → Text
written loaded assigned current = if text_eq loaded assigned then current else assigned

abbrev pub option_eq : Option Text → Option Text → Bool
option_eq none none = true
option_eq none (some t) = false
option_eq (some s) none = false
option_eq (some s) (some t) = text_eq s t

abbrev pub written_option : Option Text → Option Text → Option Text → Option Text
written_option loaded assigned current = if option_eq loaded assigned then current else assigned

-- `UPDATE bookmarks SET …, updated_at = now, version = loaded.version + 1`
unfoldable pub update_row : ℕ → Bookmark → Bookmark → Bookmark → Bookmark
update_row now loaded assigned row = record row {
  url = written loaded.url assigned.url row.url;
  title = written loaded.title assigned.title row.title;
  description = written_option loaded.description assigned.description row.description;
  updated_at = now;
  version = loaded.version + 1;
}

-- `WHERE id = … AND version = …`
abbrev pub is_current : Bookmark → Bookmark → Bool
is_current loaded row = row.id == loaded.id && row.version == loaded.version

unfoldable pub update_rows : ℕ → Bookmark → Bookmark → List Bookmark → List Bookmark
unfolding update_row
update_rows now loaded assigned [] = []
update_rows now loaded assigned (row ∷ rows) =
    (if is_current loaded row then update_row now loaded assigned row else row)
    ∷ update_rows now loaded assigned rows

module _ (engine : Engine) where
  -- `add`: the row gets its key, its creation time `now` and version 1.
  unfoldable pub add : ℕ → Db → Text → Text → Option Text → ℕ → List Tag → Result Bookmark × Db
  add now db url title description user_id tags =
      let bookmark : Bookmark = record {
        id = engine.new_id (map (λ (b : Bookmark). b.id) db.bookmarks);
        url = url;
        title = title;
        description = description;
        user_id = user_id;
        created_at = now;
        updated_at = now;
        version = 1;
      } in
      if has_id user_id (map (λ (u : User). u.id) db.users)
      then (elim (insert_links bookmark.id tags db.bookmark_tags) [
        | none ↦ (raise integrity_error, db)
        | some links ↦ (
          ok bookmark,
          record db { bookmarks = db.bookmarks ++ bookmark ∷ []; bookmark_tags = links },
        )
      ])
      else (raise integrity_error, db)

-- `update` of an object that was loaded as `loaded`, with the tags `old_tags`, and now holds the
-- columns of `assigned` and, if they were assigned, the tags `new_tags`; `before` is the database
-- to which a failed commit rolls back.
unfoldable pub update :
    ℕ → Db → Db → Bookmark → List Tag → Bookmark → Option (List Tag) → Result Bookmark × Db
unfolding update_rows new_links
update now before db loaded old_tags assigned new_tags =
    elim (find (is_current loaded) db.bookmarks) [
      | none ↦ (raise stale_version_error, before)
      | some row ↦ elim (new_links loaded.id old_tags new_tags db.bookmark_tags) [
        | none ↦ (raise stale_version_error, before)
        | some links ↦ (
          ok (update_row now loaded assigned row),
          record db {
            bookmarks = update_rows now loaded assigned db.bookmarks;
            bookmark_tags = links;
          },
        )
      ]
    ]

-- `delete` of an object that was loaded as `loaded`; the rows of `bookmark_tags` go with it.
unfoldable pub delete : Db → Bookmark → List Tag → Result (Unit {0}) × Db
unfolding delete_links
delete db loaded old_tags = elim (delete_links loaded.id old_tags db.bookmark_tags) [
  | none ↦ (raise stale_version_error, db)
  | some links ↦ elim (find (is_current loaded) db.bookmarks) [
    | none ↦ (raise stale_version_error, db)
    | some row ↦ (
      ok tt,
      record db {
        bookmarks = select (λ (b : Bookmark). not (is_current loaded b)) db.bookmarks;
        bookmark_tags = select (λ (l : Link). not (l.bookmark_id == loaded.id)) links;
      },
    )
  ]
]
