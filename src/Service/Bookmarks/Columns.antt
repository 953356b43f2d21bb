-- ===== src/Service/Bookmarks/Columns.antt =====
-- On `update` of app/services/bookmark/service.py: an update with no interference and no tags.
use bookmarks_api.Prelude.{
  ℕ, ◌+◌, ◌≡◌, refl, ap, ◌∙◌, true, false, Option, none, some, List, arith, find,
}
use bookmarks_api.Text.{Text, text_eq_iff, is_empty, strip}
use bookmarks_api.Text.Casing.{Casing}
use bookmarks_api.Errors.{or_else}
use bookmarks_api.Etag.{matches}
use bookmarks_api.Models.{Tag, Bookmark, Db, Engine}
use bookmarks_api.Result.{ok}
use bookmarks_api.Repository.Queries.{get_owned}
use bookmarks_api.Repository.Bookmarks
use bookmarks_api.Repository.Bookmarks.{
  is_current, update_row, update_rows, new_links, written, written_option, option_eq,
}
use bookmarks_api.Repository.Bookmarks.Rows.{current_of_owned}
use bookmarks_api.Service.Bookmarks.{
  Changes, assign, tags_of, or_conflict, apply_changes, update, load, get, check_precondition,
}
use bookmarks_api.Service.Bookmarks.Locking.{HasKeys}

written_lem : (s t : Text) → written s t s ≡ t
written_lem s t = ground (arith, text_eq_iff s t)

written_option_lem : (s t : Option Text) → written_option s t s ≡ t
written_option_lem none none = refl
written_option_lem none (some t) = refl
written_option_lem (some s) none = refl
written_option_lem (some s) (some t) = ground (arith, text_eq_iff s t)

-- The row as the request asks for it.
abbrev pub changed : ℕ → Changes → Bookmark → Bookmark
changed now changes old = record (assign changes old) {
  updated_at = now;
  version = old.version + 1;
}

pub update_row-changed :
    (now : ℕ) (changes : Changes) (old : Bookmark)
    → update_row now old (assign changes old) old ≡ changed now changes old
unfolding update_row assign
update_row-changed now changes old = λ i. record (changed now changes old) {
  url = written_lem old.url (or_else changes.url old.url) i;
  title = written_lem old.title (or_else changes.title old.title) i;
  description = written_option_lem old.description (or_else changes.description old.description) i;
}

-- The commit of an object that is still current.
commit_current :
    (now : ℕ) (db : Db) (old assigned : Bookmark) (old_tags : List Tag)
    → find (is_current old) db.bookmarks ≡ some old
    → Bookmarks.update now db db old old_tags assigned none ≡ (
      ok (update_row now old assigned old),
      record db { bookmarks = update_rows now old assigned db.bookmarks },
    )
unfolding Bookmarks.update new_links
commit_current now db old assigned old_tags found = rw (found, Bookmarks.update)

apply_columns :
    (engine : Engine) (casing : Casing) (now : ℕ) (db : Db) (user_id bookmark_id : ℕ)
    (changes : Changes) (old : Bookmark)
    → changes.tags ≡ none
    → apply_changes engine casing now db db user_id bookmark_id changes old
      ≡ or_conflict user_id bookmark_id
          (Bookmarks.update now db db old (tags_of db old) (assign changes old) none)
unfolding apply_changes assign
apply_columns engine casing now db user_id bookmark_id changes old no_tags =
    rw (no_tags, apply_changes)

pub update_of_load :
    (engine : Engine) (casing : Casing) (now : ℕ) (db db' : Db) (user_id bookmark_id : ℕ)
    (changes : Changes) (if_match : Option Text) (old : Bookmark)
    → load db user_id bookmark_id if_match ≡ ok old
    → update engine casing now db db' user_id bookmark_id changes if_match
      ≡ apply_changes engine casing now db db' user_id bookmark_id changes old
unfolding update
update_of_load engine casing now db db' user_id bookmark_id changes if_match old h = rw (h, update)

pub load_passes :
    (db : Db) (user_id bookmark_id : ℕ) (h : Text) (old : Bookmark)
    → get_owned db user_id bookmark_id ≡ some old
    → is_empty (strip h) ≡ false
    → matches h old.version ≡ true
    → load db user_id bookmark_id (some h) ≡ ok old
unfolding load get check_precondition
load_passes db user_id bookmark_id h old found given same =
    rw (found, get, load) (rw (given, same, check_precondition))

pub update_columns :
    (engine : Engine) (casing : Casing) (now : ℕ) (db : Db) (user_id bookmark_id : ℕ)
    (changes : Changes) (h : Text) (old : Bookmark)
    → HasKeys db
    → get_owned db user_id bookmark_id ≡ some old
    → is_empty (strip h) ≡ false
    → matches h old.version ≡ true
    → changes.tags ≡ none
    → update engine casing now db db user_id bookmark_id changes (some h) ≡ (
      ok (changed now changes old),
      record db { bookmarks = update_rows now old (assign changes old) db.bookmarks },
    )
unfolding or_conflict get_owned
update_columns engine casing now db user_id bookmark_id changes h old d found given same no_tags =
    update_of_load engine casing now db db user_id bookmark_id changes (some h) old
      (load_passes db user_id bookmark_id h old found given same)
    ∙ apply_columns engine casing now db user_id bookmark_id changes old no_tags
    ∙ ap (or_conflict user_id bookmark_id) (
        commit_current now db old (assign changes old) (tags_of db old)
          (current_of_owned user_id bookmark_id db.bookmarks old d found))
    ∙ ap
        (λ b.
          (ok b, record db { bookmarks = update_rows now old (assign changes old) db.bookmarks }))
        (update_row-changed now changes old)
