-- ===== src/Service/Bookmarks/Effects.antt =====
-- On `update` of app/services/bookmark/service.py: what an update without tags leaves.
use bookmarks_api.Prelude.{
  ℕ, ◌+◌, ◌≡◌, refl, sym, ap, ◌∙◌, ◌⊎◌, inl, inr, true, false, none, some, arith, ◌==◌, Bool-cases,
}
use bookmarks_api.Text.{Text, is_empty, strip}
use bookmarks_api.Text.Casing.{Casing}
use bookmarks_api.Errors.{or_else}
use bookmarks_api.Etag.{matches}
use bookmarks_api.Models.{Bookmark, Db, Engine}
use bookmarks_api.Result.{Result, ok}
use bookmarks_api.Repository.Queries.{get_owned}
use bookmarks_api.Repository.Bookmarks.{update_rows}
use bookmarks_api.Service.Bookmarks.{Changes, assign, update}
use bookmarks_api.Service.Bookmarks.Guards.{get_owned-keys}
use bookmarks_api.Service.Bookmarks.Locking.{HasKeys}
use bookmarks_api.Service.Bookmarks.Versions.{update-Replaced}
use bookmarks_api.Service.Bookmarks.Columns.{changed, update_columns}

-- An update that answers with `b` and rewrites the user's row under its key, and nothing else.
pub record Rewritten (user_id bookmark_id : ℕ) (b : Bookmark) (db : Db) (out : Result Bookmark × Db)
    : Type 0 where
  pub answer : out.0 ≡ ok b
  pub stored : get_owned out.1 user_id bookmark_id ≡ some b
  pub others :
      (other_user i : ℕ)
      → (i ≡ bookmark_id) ⊎ (get_owned out.1 other_user i ≡ get_owned db other_user i)
  pub users : out.1.users ≡ db.users
  pub tags : out.1.tags ≡ db.tags
  pub links : out.1.bookmark_tags ≡ db.bookmark_tags

-- The row of the request: the columns that it gives, the time and the next version.
abbrev pub requested : ℕ → Changes → Bookmark → Bookmark
requested now changes old = record old {
  url = or_else changes.url old.url;
  title = or_else changes.title old.title;
  description = or_else changes.description old.description;
  updated_at = now;
  version = old.version + 1;
}

changed-requested :
    (now : ℕ) (changes : Changes) (old : Bookmark)
    → changed now changes old ≡ requested now changes old
unfolding assign
changed-requested now changes old = refl

-- With an If-Match that names the version of the caller's bookmark, and no other request in between,
-- an update without tags succeeds. It answers with the row as it was, but for the columns that the
-- request gives, the time and the next version; this row is then stored, and all other bookmarks,
-- the users, the tags and the pairs of bookmarks and tags are as they were. No two bookmarks may
-- share a key.
pub update-Rewritten :
    (engine : Engine) (casing : Casing) (now : ℕ) (db : Db) (user_id bookmark_id : ℕ)
    (changes : Changes) (h : Text) (old : Bookmark)
    → HasKeys db
    → get_owned db user_id bookmark_id ≡ some old
    → is_empty (strip h) ≡ false
    → matches h old.version ≡ true
    → changes.tags ≡ none
    → Rewritten user_id bookmark_id
        (requested now changes old)
        db
        (update engine casing now db db user_id bookmark_id changes (some h))
unfolding assign
update-Rewritten engine casing now db user_id bookmark_id changes h old d found given same no_tags =
    let run =
      update_columns engine casing now db user_id bookmark_id changes h old d found given same
        no_tags in
    let after : Db = record db {
      bookmarks = update_rows now old (assign changes old) db.bookmarks;
    } in
    let r =
      update-Replaced engine casing user_id bookmark_id now db db changes (some h)
        (changed now changes old) after d run in
    let owner = (get_owned-keys db user_id bookmark_id old found).1 in
    record {
      answer = ap (λ (o : Result Bookmark × Db). o.0) run;
      stored =
          ap (λ (o : Result Bookmark × Db). get_owned o.1 user_id bookmark_id) run
          ∙ ap (λ u. get_owned after u bookmark_id) (sym owner)
          ∙ r.2.stored;
      others = λ other_user i. elim (Bool-cases (i == bookmark_id)) [
        | inl here ↦ inl (ground arith)
        | inr elsewhere ↦ inr (
            ap (λ (o : Result Bookmark × Db). get_owned o.1 other_user i) run
            ∙ r.2.others other_user i (λ e. absurd (ground arith)))
      ];
      users = ap (λ (o : Result Bookmark × Db). o.1.users) run;
      tags = ap (λ (o : Result Bookmark × Db). o.1.tags) run;
      links = ap (λ (o : Result Bookmark × Db). o.1.bookmark_tags) run;
    }
