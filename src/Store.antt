-- ===== src/Store.antt =====
-- The bookmarks as app/services/bookmark/interface.py lets a client see them: one row for each key,
-- without the order of the table, its links and its flushes; and what a request may do to them.
pub mod Rows
pub mod Refinement
pub mod Isolation
pub mod Overlap
use bookmarks_api.Prelude.{ℕ, ◌+◌, ◌≡◌, Option, none, some, List, find, ◌==◌, if◌then◌else◌}
use bookmarks_api.Text.{Text}
use bookmarks_api.Text.Casing.{Casing}
use bookmarks_api.Tags.{RawTag}
use bookmarks_api.Models.{Bookmark, Db, Engine}
use bookmarks_api.Repository.Queries.{get_owned}
use bookmarks_api.Security.{Jwt, Hasher, TokenProvider}
use bookmarks_api.Service.Auth.{register}
use bookmarks_api.Service.Bookmarks.{Changes, create, update, delete}

abbrev pub Store : Type 0
Store = ℕ → Option Bookmark

unfoldable pub view_rows : List Bookmark → Store
view_rows rows i = find (λ b. b.id == i) rows

abbrev pub view : Db → Store
view db = view_rows db.bookmarks

abbrev pub put : Store → ℕ → Option Bookmark → Store
put s i v j = if j == i then v else s j

-- The user's part of a row that may be there.
abbrev pub mine : ℕ → Option Bookmark → Option Bookmark
mine user_id none = none
mine user_id (some b) = if b.user_id == user_id then some b else none

-- What one request of a user may do.
pub data Move (user_id : ℕ) (s : Store) : Store → Type 0 where
  stays : Move user_id s s
  creates :
      (b : Bookmark)
      → s b.id ≡ none
      → b.user_id ≡ user_id
      → b.version ≡ 1
      → Move user_id s (put s b.id (some b))
  replaces :
      (old b : Bookmark)
      → s old.id ≡ some old
      → old.user_id ≡ user_id
      → b.id ≡ old.id
      → b.user_id ≡ old.user_id
      → b.created_at ≡ old.created_at
      → b.version ≡ old.version + 1
      → Move user_id s (put s old.id (some b))
  removes :
      (old : Bookmark)
      → s old.id ≡ some old
      → old.user_id ≡ user_id
      → Move user_id s (put s old.id none)

-- A bookmark that the user has read from `db` is still theirs in `db'`, if its key is still there.
abbrev pub IsKept : ℕ → Db → Db → Type 0
IsKept user_id db db' =
    (i : ℕ) (a b : Bookmark)
    → get_owned db user_id i ≡ some a
    → view db' i ≡ some b
    → b.user_id ≡ user_id

module _ (engine : Engine) (casing : Casing) (jwt : Jwt) (hasher : Hasher)
    (provider : TokenProvider) (user_id : ℕ) where
  -- A request of the user that reads `db` and commits to `db'`.
  pub data Request (db' : Db) : Db → Type 0 where
    registers :
        (now salt : ℕ) (jti : Text) (db : Db) (username email password : Text)
        → Request db'
            (register engine casing jwt hasher provider now salt jti db db' username email
              password).1
    creates :
        (now : ℕ) (url title : Text) (description : Option Text) (tags : List RawTag)
        → Request db' (create engine casing now db' user_id url title description tags).1
    updates :
        (now : ℕ) (db : Db) (bookmark_id : ℕ) (changes : Changes) (if_match : Option Text)
        → IsKept user_id db db'
        → Request db' (update engine casing now db db' user_id bookmark_id changes if_match).1
    deletes :
        (db : Db) (bookmark_id : ℕ) (if_match : Option Text)
        → IsKept user_id db db'
        → Request db' (delete db db' user_id bookmark_id if_match).1
