-- ===== src/Service/Bookmarks/Updates.antt =====
-- On `update` of app/services/bookmark/service.py behind its guards: the outcomes of its commit.
use bookmarks_api.Prelude.{
  ℕ, ◌≡◌, refl, sym, ap, ◌∙◌, Option, none, some, List, arith, find, Option-cases, inl, inr,
}
use bookmarks_api.Text.{Text}
use bookmarks_api.Text.Casing.{Casing}
use bookmarks_api.Tags.{RawTag, normalize_tags}
use bookmarks_api.Models.{Tag, Link, Bookmark, Db, Engine}
use bookmarks_api.Result.{Exception, Result, ok, raise, ◌>>=◌, stale_version_error}
use bookmarks_api.Repository.Tags.{get_or_create}
use bookmarks_api.Repository.Tags.Laws.{get_or_create-Extends}
use bookmarks_api.Repository.Bookmarks
use bookmarks_api.Repository.Bookmarks.{is_current, update_row, update_rows, new_links}
use bookmarks_api.Service.Bookmarks.{
  Changes, assign, tags_of, or_conflict, resolve_tags, apply_changes,
}

-- The rows that a committed update of `loaded` to `assigned` leaves, where it found `row`.
pub record Updated (now : ℕ) (loaded assigned b : Bookmark) (db db' : Db) : Type 0 where
  pub row : Bookmark
  pub found : find (is_current loaded) db.bookmarks ≡ some row
  pub result : b ≡ update_row now loaded assigned row
  pub rows : db'.bookmarks ≡ update_rows now loaded assigned db.bookmarks
  pub users : db'.users ≡ db.users

-- A commit that succeeds, or fails and rolls back.
data Commit (now : ℕ) (before db : Db) (loaded assigned : Bookmark)
    : Result Bookmark × Db → Type 0 where
  committed :
      {b : Bookmark} {db' : Db}
      → Updated now loaded assigned b db db'
      → Commit now before db loaded assigned (ok b, db')
  stale : Commit now before db loaded assigned (raise stale_version_error, before)

links-Commit :
    (now : ℕ) (before db : Db) (loaded assigned row : Bookmark) (old_tags : List Tag)
    (new_tags : Option (List Tag)) (links : Option (List Link))
    → find (is_current loaded) db.bookmarks ≡ some row
    → new_links loaded.id old_tags new_tags db.bookmark_tags ≡ links
    → Commit now before db loaded assigned
        (Bookmarks.update now before db loaded old_tags assigned new_tags)
unfolding Bookmarks.update
links-Commit now before db loaded assigned row old_tags new_tags none found e =
    rw (found, e, Bookmarks.update) stale
links-Commit now before db loaded assigned row old_tags new_tags (some links) found e =
    rw (found, e, Bookmarks.update)
      (committed (record { row = row; found = found; result = refl; rows = refl; users = refl }))

update-Commit :
    (now : ℕ) (before db : Db) (loaded assigned : Bookmark) (old_tags : List Tag)
    (new_tags : Option (List Tag))
    → Commit now before db loaded assigned
        (Bookmarks.update now before db loaded old_tags assigned new_tags)
unfolding Bookmarks.update
update-Commit now before db loaded assigned old_tags new_tags =
    elim (Option-cases (find (is_current loaded) db.bookmarks)) [
      | inl gone ↦ rw (gone, Bookmarks.update) stale
      | inr (row, found) ↦
          links-Commit now before db loaded assigned row old_tags new_tags _ found refl
    ]

rebase :
    {now : ℕ} {loaded assigned b : Bookmark} {flushed db db' : Db}
    → flushed.bookmarks ≡ db.bookmarks
    → flushed.users ≡ db.users
    → Updated now loaded assigned b flushed db'
    → Updated now loaded assigned b db db'
rebase {now} {loaded} {assigned} same users u = record {
  row = u.row;
  found = ap (find (is_current loaded)) (sym same) ∙ u.found;
  result = u.result;
  rows = u.rows ∙ ap (update_rows now loaded assigned) same;
  users = u.users ∙ users;
}

-- An update, behind its guards, that succeeds or leaves the database `db` as it was.
pub data Outcome (now : ℕ) (loaded assigned : Bookmark) (db : Db)
    : Result Bookmark × Db → Type 0 where
  done :
      {b : Bookmark} {db' : Db}
      → Updated now loaded assigned b db db'
      → Outcome now loaded assigned db (ok b, db')
  refused : (e : Exception) → Outcome now loaded assigned db (raise e, db)

conflict-Outcome :
    {now : ℕ} {loaded assigned : Bookmark} {db flushed : Db} {out : Result Bookmark × Db}
    (user_id bookmark_id : ℕ)
    → flushed.bookmarks ≡ db.bookmarks
    → flushed.users ≡ db.users
    → Commit now db flushed loaded assigned out
    → Outcome now loaded assigned db (or_conflict user_id bookmark_id out)
unfolding or_conflict
conflict-Outcome user_id bookmark_id same users (committed u) = done (rebase same users u)
conflict-Outcome user_id bookmark_id same users stale = refused _

module _ (engine : Engine) (casing : Casing) where
  names-keeps :
      (names : Result (List Text)) (db : Db) {tags : List Tag} {flushed : Db}
      → (names >>= λ ns. ok (get_or_create engine ns db)) ≡ ok (tags, flushed)
      → (flushed.bookmarks ≡ db.bookmarks) × (flushed.users ≡ db.users)
  names-keeps (ok ns) db h =
      let (named, (users, bookmarks, links, rest)) = get_or_create-Extends engine ns db in
      ground (arith, users, bookmarks)
  names-keeps (raise e) db h = cc

  pub resolve_tags-keeps :
      (raw : List RawTag) (db : Db) {tags : List Tag} {flushed : Db}
      → resolve_tags engine casing raw db ≡ ok (tags, flushed)
      → (flushed.bookmarks ≡ db.bookmarks) × (flushed.users ≡ db.users)
  unfolding resolve_tags
  resolve_tags-keeps raw db h = names-keeps (normalize_tags casing (some raw)) db h

  module _ (now : ℕ) (db db' : Db) (user_id bookmark_id : ℕ) (changes : Changes)
      (loaded : Bookmark) where
    resolved-Outcome :
        (raw : List RawTag) (resolved : Result (List Tag × Db))
        → changes.tags ≡ some raw
        → resolve_tags engine casing raw db' ≡ resolved
        → Outcome now loaded
            (assign changes loaded)
            db'
            (apply_changes engine casing now db db' user_id bookmark_id changes loaded)
    unfolding apply_changes assign
    resolved-Outcome raw (raise e) tags r = rw (tags, r, apply_changes) (refused e)
    resolved-Outcome raw (ok (new_tags, flushed)) tags r =
        let (same, users) = resolve_tags-keeps raw db' r in
        rw (tags, r, apply_changes)
          (conflict-Outcome user_id bookmark_id same users (
            update-Commit now db' flushed loaded (assign changes loaded) (tags_of db loaded)
              (some new_tags)))

    -- Behind the guards an update replaces the row that still is at the loaded version, or is
    -- refused and changes nothing.
    pub apply_changes-Outcome :
        Outcome now loaded
          (assign changes loaded)
          db'
          (apply_changes engine casing now db db' user_id bookmark_id changes loaded)
    unfolding apply_changes assign
    apply_changes-Outcome = elim (Option-cases changes.tags) [
      | inl no_tags ↦
          rw (no_tags, apply_changes)
            (conflict-Outcome user_id bookmark_id refl refl
              (update-Commit now db' db' loaded (assign changes loaded) (tags_of db loaded) none))
      | inr (raw, tags) ↦ resolved-Outcome raw (resolve_tags engine casing raw db') tags refl
    ]
