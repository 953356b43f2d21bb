-- ===== src/Routers/Bookmarks/Laws.antt =====
-- On the handlers of app/routers/bookmarks.py: the ETags of their responses.
use mathlib.Core.Option.{some-injective}
use bookmarks_api.Prelude.{ℕ, ◌≡◌, refl, sym, ap, subst, ◌∙◌, Option, some, find}
use bookmarks_api.Text.{Text}
use bookmarks_api.Text.Casing.{Casing}
use bookmarks_api.Etag.{make_etag}
use bookmarks_api.Etag.Laws.{matches-make_etag}
use bookmarks_api.Models.{Bookmark, Db, Engine}
use bookmarks_api.Result.{Result, ok, raise}
use bookmarks_api.Repository.Queries.{get_owned}
use bookmarks_api.Repository.Bookmarks.{update_row}
use bookmarks_api.Repository.Bookmarks.Rows.{current_of_owned}
use bookmarks_api.Service.Bookmarks.{Changes, get, load, update}
use bookmarks_api.Service.Bookmarks.Guards.{get_owned-keys}
use bookmarks_api.Service.Bookmarks.Columns.{load_passes}
use bookmarks_api.Service.Bookmarks.Locking.{HasKeys, update-Committed}
use bookmarks_api.Service.Bookmarks.Versions.{update-Replaced, make_etag_given}
use bookmarks_api.Schemas.Out.{BookmarkOut, bookmark_out}
use bookmarks_api.Routers.Bookmarks.{
  BookmarkUpdate, changes_of, with_etag, update_bookmark, get_bookmark,
}

module _ (engine : Engine) (casing : Casing) (now : ℕ) (db after : Db)
    (user_id bookmark_id : ℕ) where
  owner_kept :
      (changes : Changes) (if_match : Option Text) (b : Bookmark)
      → HasKeys db
      → update engine casing now db db user_id bookmark_id changes if_match ≡ (ok b, after)
      → b.user_id ≡ user_id
  unfolding find get_owned update_row
  owner_kept changes if_match b d h =
      let c =
        update-Committed engine casing now db db user_id bookmark_id changes if_match b after h in
      let same_row : c.updated.row ≡ c.old = some-injective _ _ (
        sym c.updated.found ∙ current_of_owned user_id bookmark_id db.bookmarks c.old d c.loaded) in
      ap (λ (x : Bookmark). x.user_id) c.updated.result
      ∙ ap (λ (x : Bookmark). x.user_id) same_row
      ∙ (get_owned-keys db user_id bookmark_id c.old c.loaded).1

  stored_after :
      (changes : Changes) (if_match : Option Text) (b : Bookmark)
      → HasKeys db
      → update engine casing now db db user_id bookmark_id changes if_match ≡ (ok b, after)
      → get_owned after user_id bookmark_id ≡ some b
  stored_after changes if_match b d h =
      let r =
        update-Replaced engine casing user_id bookmark_id now db db changes if_match b after d h in
      ap (λ u. get_owned after u bookmark_id) (sym (owner_kept changes if_match b d h)) ∙ r.2.stored

-- The bookmark that is read, and the guards with its ETag.
get_of_owned :
    (engine : Engine) (db : Db) (user_id bookmark_id : ℕ) (b : Bookmark)
    → get_owned db user_id bookmark_id ≡ some b
    → (get_bookmark engine db user_id bookmark_id
        ≡ ok (bookmark_out engine db b, make_etag b.version))
      × (load db user_id bookmark_id (some (make_etag b.version)) ≡ ok b)
unfolding get_bookmark get with_etag
get_of_owned engine db user_id bookmark_id b found = (
  rw (found, get),
  load_passes db user_id bookmark_id (make_etag b.version) b found (make_etag_given b.version)
      ((matches-make_etag b.version b.version).1 refl),
)

-- The bookmark behind a response.
with_etag-ok :
    (engine : Engine) (db : Db) (r : Result Bookmark) (response : BookmarkOut) (etag : Text)
    → with_etag engine db r ≡ ok (response, etag)
    → (b : Bookmark) × (r ≡ ok b)
      × (response ≡ bookmark_out engine db b)
      × (etag ≡ make_etag b.version)
unfolding with_etag
with_etag-ok engine db (ok c) response etag h =
    (c, refl, ap fst_of (pair_of h), ap snd_of (pair_of h))
  where
    fst_of : BookmarkOut × Text → BookmarkOut
    fst_of p = p.0

    snd_of : BookmarkOut × Text → Text
    snd_of p = p.1

    pair_of : {p q : BookmarkOut × Text} → ok p ≡ ok q → q ≡ p
    pair_of h = cc
with_etag-ok engine db (raise e) response etag h = cc

-- After an update that no other request came in between, with or without tags, the bookmark reads
-- back as it was answered, its tags included and with the same ETag, and that ETag lets the next
-- change through the guards. No two bookmarks may share a key.
pub update_bookmark-get :
    (engine : Engine) (casing : Casing) (now : ℕ) (db after : Db) (user_id bookmark_id : ℕ)
    (payload : BookmarkUpdate) (if_match : Option Text) (response : BookmarkOut) (etag : Text)
    → HasKeys db
    → update_bookmark engine casing now db db user_id bookmark_id payload if_match
      ≡ (ok (response, etag), after)
    → (get_bookmark engine after user_id bookmark_id ≡ ok (response, etag))
      × ((b : Bookmark) × (load after user_id bookmark_id (some etag) ≡ ok b))
unfolding update_bookmark
update_bookmark-get engine casing now db after user_id bookmark_id payload if_match response etag d
      h =
    let out = update engine casing now db db user_id bookmark_id (changes_of payload) if_match in
    let (b, same, shown, tagged) =
      with_etag-ok engine out.1 out.0 response etag (ap (λ o. o.0) h) in
    let left : out.1 ≡ after = ap (λ o. o.1) h in
    let whole : out ≡ (ok b, after) = λ i. (same i, left i) in
    let found =
      stored_after engine casing now db after user_id bookmark_id (changes_of payload) if_match b d
        whole in
    let (read, passed) = get_of_owned engine after user_id bookmark_id b found in
    let answered : response ≡ bookmark_out engine after b =
      shown ∙ ap (λ d. bookmark_out engine d b) left in
    (
      read ∙ ap ok (λ i. (sym answered i, sym tagged i)),
      (b, subst (λ t. load after user_id bookmark_id (some t) ≡ ok b) (sym tagged) passed),
    )
