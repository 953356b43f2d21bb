-- ===== src/Integrity.antt =====
-- The constraints of the tables that app/models and the migrations declare, and the writes that the
-- requests are made of.
pub mod Keys
pub mod Links
pub mod Keeps
pub mod Tags
pub mod Pairs
pub mod Requests
pub mod Mutations
pub mod Reach
use bookmarks_api.Prelude.{
  ℕ, ◌≤◌, ◌≡◌, true, false, not, none, some, List, [], ◌∷◌, ◌++◌, map, All, find, select, ◌==◌,
}
use bookmarks_api.Models.{User, Tag, Bookmark, Link, Db, has_id}
use bookmarks_api.Tags.{member}
use bookmarks_api.Repository.Tags.Laws.{names_of}
use bookmarks_api.Repository.Queries.{is_linked}
use bookmarks_api.Repository.Queries.Joins.{HasNames}
use bookmarks_api.Repository.Bookmarks
use bookmarks_api.Repository.Bookmarks.{tag_ids, update_rows, is_current}
use bookmarks_api.Repository.Bookmarks.Rows.{ids, IsDistinct}
use bookmarks_api.Service.Auth.Uniqueness.{clash, IsUnique}

abbrev pub user_ids : List User → List ℕ
user_ids = map (λ (u : User). u.id)

-- The primary key of `bookmark_tags`: no pair occurs twice.
abbrev pub HasPairs : List Link → Type 0
HasPairs [] = Unit
HasPairs (l ∷ ls) = (is_linked ls l.bookmark_id l.tag_id ≡ false) × HasPairs ls

-- The foreign keys of a link, and of a bookmark with its version.
abbrev pub IsAttached : List ℕ → List ℕ → Link → Type 0
IsAttached bookmarks tags l =
    (has_id l.bookmark_id bookmarks ≡ true) × (has_id l.tag_id tags ≡ true)

abbrev pub IsOwned : List ℕ → Bookmark → Type 0
IsOwned users b = (has_id b.user_id users ≡ true) × (1 ≤ b.version)

-- Primary keys, unique columns and foreign keys hold, and every version is at least one.
pub record IsValid (db : Db) : Type 0 where
  pub users : IsDistinct (user_ids db.users)
  pub accounts : IsUnique db.users
  pub tags : IsDistinct (tag_ids db.tags)
  pub names : HasNames db.tags
  pub bookmarks : IsDistinct (ids db.bookmarks)
  pub owned : All (IsOwned (user_ids db.users)) db.bookmarks
  pub pairs : HasPairs db.bookmark_tags
  pub attached : All (IsAttached (ids db.bookmarks) (tag_ids db.tags)) db.bookmark_tags

-- One write of a transaction, with what the code has made sure of before it.
pub data Write (db after : Db) : Type 0 where
  add_user :
      (u : User)
      → has_id u.id (user_ids db.users) ≡ false
      → find (clash u.username u.email) db.users ≡ none
      → after ≡ record db { users = db.users ++ u ∷ [] }
      → Write db after
  add_tag :
      (t : Tag)
      → has_id t.id (tag_ids db.tags) ≡ false
      → member t.name (names_of db.tags) ≡ false
      → after ≡ record db { tags = db.tags ++ t ∷ [] }
      → Write db after
  add_bookmark :
      (b : Bookmark)
      → has_id b.id (ids db.bookmarks) ≡ false
      → has_id b.user_id (user_ids db.users) ≡ true
      → 1 ≤ b.version
      → after ≡ record db { bookmarks = db.bookmarks ++ b ∷ [] }
      → Write db after
  add_link :
      (l : Link)
      → is_linked db.bookmark_tags l.bookmark_id l.tag_id ≡ false
      → has_id l.bookmark_id (ids db.bookmarks) ≡ true
      → has_id l.tag_id (tag_ids db.tags) ≡ true
      → after ≡ record db { bookmark_tags = db.bookmark_tags ++ l ∷ [] }
      → Write db after
  drop_link :
      (bookmark_id tag_id : ℕ)
      → after
        ≡ record db { bookmark_tags = Bookmarks.remove_link bookmark_id tag_id db.bookmark_tags }
      → Write db after
  change_row :
      (now : ℕ) (loaded assigned : Bookmark)
      → after ≡ record db { bookmarks = update_rows now loaded assigned db.bookmarks }
      → Write db after
  drop_row :
      (loaded : Bookmark)
      → after ≡ record db {
        bookmarks = select (λ b. not (is_current loaded b)) db.bookmarks;
        bookmark_tags = select (λ l. not (l.bookmark_id == loaded.id)) db.bookmark_tags;
      }
      → Write db after

-- Any number of writes.
pub data Writes (db : Db) : Db → Type 0 where
  here : Writes db db
  next : {mid after : Db} → Writes db mid → Write mid after → Writes db after

pub Writes-trans : {db mid after : Db} → Writes db mid → Writes mid after → Writes db after
Writes-trans w here = w
Writes-trans w (next v s) = next (Writes-trans w v) s
