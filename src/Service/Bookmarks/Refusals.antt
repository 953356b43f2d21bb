-- ===== src/Service/Bookmarks/Refusals.antt =====
-- On `update` and `delete` of app/services/bookmark/service.py: how their guards refuse, as the
-- exception handler of app/core/errors.py answers it.
use bookmarks_api.Prelude.{ℕ, ◌≡◌, refl, ap, true, false, Option, none, some, [], ◌∷◌}
use bookmarks_api.Text.{Text, codes, is_empty, strip}
use bookmarks_api.Text.Casing.{Casing}
use bookmarks_api.Errors.{AppError, Headers, handle_exception, init_error, class_status, class_code}
use bookmarks_api.Errors
use bookmarks_api.Etag.{make_etag, matches}
use bookmarks_api.Models.{Bookmark, Db, Engine}
use bookmarks_api.Result.{Exception, Result, ok, raise, app}
use bookmarks_api.Repository.Queries.{get_owned}
use bookmarks_api.Service.Bookmarks.{
  Changes, conflict, precondition_required, not_found, load, update, delete,
}
use bookmarks_api.Service.Bookmarks.Guards.{
  Answer, missing, unconditional, mismatch, passed, load-Answer,
}
use bookmarks_api.Service.Bookmarks.Locking.{HasKeys}
use bookmarks_api.Service.Bookmarks.Versions.{old_etag_loses}

-- The `ETag` header of a version.
abbrev pub etag_header : ℕ → Option Headers
etag_header version = some ((codes "ETag", make_etag version) ∷ [])

-- A request that ends with this status and these headers, and leaves the database as it was.
pub record Refusal {A : Type 0} (status : ℕ) (headers : Option Headers) (db' : Db)
    (out : Result A × Db) : Type 0 where
  pub error : AppError
  pub raised : out.0 ≡ raise (app error)
  pub status_code : (handle_exception (Errors.app error)).status_code ≡ status
  pub header : (handle_exception (Errors.app error)).headers ≡ headers
  pub unchanged : out.1 ≡ db'

-- A mutation, by the bookmark that its user reads and by its header.
pub data Guarded {A : Type 0} (db db' : Db) (user_id bookmark_id : ℕ) (if_match : Option Text)
    (out : Result A × Db) : Type 0 where
  absent :
      get_owned db user_id bookmark_id ≡ none
      → Refusal 404 none db' out
      → Guarded db db' user_id bookmark_id if_match out
  without_header :
      (b : Bookmark)
      → get_owned db user_id bookmark_id ≡ some b
      → ((h : Text) → if_match ≡ some h → is_empty (strip h) ≡ true)
      → Refusal 428 (etag_header b.version) db' out
      → Guarded db db' user_id bookmark_id if_match out
  other_version :
      (b : Bookmark) (h : Text)
      → get_owned db user_id bookmark_id ≡ some b
      → if_match ≡ some h
      → is_empty (strip h) ≡ false
      → matches h b.version ≡ false
      → Refusal 412 (etag_header b.version) db' out
      → Guarded db db' user_id bookmark_id if_match out
  let_through :
      (b : Bookmark) (h : Text)
      → get_owned db user_id bookmark_id ≡ some b
      → if_match ≡ some h
      → is_empty (strip h) ≡ false
      → matches h b.version ≡ true
      → Guarded db db' user_id bookmark_id if_match out

module _ {A : Type 0} (db' : Db) {out : Result A × Db} where
  not_found-Refusal :
      (bookmark_id : ℕ)
      → out ≡ (raise (app (not_found bookmark_id)), db')
      → Refusal 404 none db' out
  unfolding not_found init_error class_status class_code handle_exception
  not_found-Refusal bookmark_id h = record {
    error = not_found bookmark_id;
    raised = ap (λ (o : Result A × Db). o.0) h;
    status_code = refl;
    header = refl;
    unchanged = ap (λ (o : Result A × Db). o.1) h;
  }

  precondition_required-Refusal :
      (version : ℕ)
      → out ≡ (raise (app (precondition_required (make_etag version))), db')
      → Refusal 428 (etag_header version) db' out
  unfolding precondition_required init_error class_status class_code handle_exception
  precondition_required-Refusal version h = record {
    error = precondition_required (make_etag version);
    raised = ap (λ (o : Result A × Db). o.0) h;
    status_code = refl;
    header = refl;
    unchanged = ap (λ (o : Result A × Db). o.1) h;
  }

  conflict-Refusal :
      (version : ℕ)
      → out ≡ (raise (app (conflict (some (make_etag version)))), db')
      → Refusal 412 (etag_header version) db' out
  unfolding conflict init_error class_status class_code handle_exception
  conflict-Refusal version h = record {
    error = conflict (some (make_etag version));
    raised = ap (λ (o : Result A × Db). o.0) h;
    status_code = refl;
    header = refl;
    unchanged = ap (λ (o : Result A × Db). o.1) h;
  }

  Answer-Guarded :
      {db : Db} {user_id bookmark_id : ℕ} {if_match : Option Text} {r : Result Bookmark}
      → ((e : Exception) → r ≡ raise e → out ≡ (raise e, db'))
      → Answer db user_id bookmark_id if_match r
      → Guarded db db' user_id bookmark_id if_match out
  Answer-Guarded stops (missing {bookmark_id} none_there) =
      absent none_there (not_found-Refusal bookmark_id (stops _ refl))
  Answer-Guarded stops (unconditional b found blank) =
      without_header b found blank (precondition_required-Refusal b.version (stops _ refl))
  Answer-Guarded stops (mismatch b h found given nonblank differs) =
      other_version b h found given nonblank differs (conflict-Refusal b.version (stops _ refl))
  Answer-Guarded stops (passed b h found given nonblank same) =
      let_through b h found given nonblank same

module _ (engine : Engine) (casing : Casing) (user_id bookmark_id : ℕ) where
  update_stops :
      (now : ℕ) (db db' : Db) (changes : Changes) (if_match : Option Text) (e : Exception)
      → load db user_id bookmark_id if_match ≡ raise e
      → update engine casing now db db' user_id bookmark_id changes if_match ≡ (raise e, db')
  unfolding update
  update_stops now db db' changes if_match e h = rw (h, update)

  delete_stops :
      (db db' : Db) (if_match : Option Text) (e : Exception)
      → load db user_id bookmark_id if_match ≡ raise e
      → delete db db' user_id bookmark_id if_match ≡ (raise e, db')
  unfolding delete
  delete_stops db db' if_match e h = rw (h, delete)

  -- An update and a deletion get past their guards only on a bookmark of the user whose version the
  -- If-Match header names. Otherwise the response is a 404 where the user has no such bookmark, a 428
  -- where the header is missing or blank, and a 412 where it names other versions, the latter two
  -- with the ETag of the bookmark, and the database is left as it was.
  pub mutations-Guarded :
      (now : ℕ) (db db' : Db) (changes : Changes) (if_match : Option Text)
      → Guarded db db' user_id bookmark_id if_match
          (update engine casing now db db' user_id bookmark_id changes if_match)
        × Guarded db db' user_id bookmark_id if_match (delete db db' user_id bookmark_id if_match)
  mutations-Guarded now db db' changes if_match = (
    Answer-Guarded db' (update_stops now db db' changes if_match)
        (load-Answer db user_id bookmark_id if_match),
    Answer-Guarded db' (delete_stops db db' if_match) (load-Answer db user_id bookmark_id if_match),
  )

  -- The ETag that was current before an update that succeeds no longer passes after it: an update or
  -- a deletion of the bookmark with it gets a 412 with the new ETag, and nothing changes. No other
  -- request comes in between, and no two bookmarks share a key.
  pub old_etag-Refusal :
      (now now' : ℕ) (db after : Db) (changes changes' : Changes) (if_match : Option Text)
      (old b : Bookmark)
      → HasKeys db
      → get_owned db user_id bookmark_id ≡ some old
      → update engine casing now db db user_id bookmark_id changes if_match ≡ (ok b, after)
      → Refusal 412 (etag_header b.version) after (
          update engine casing now' after after user_id bookmark_id changes'
            (some (make_etag old.version)))
        × Refusal 412
            (etag_header b.version)
            after
            (delete after after user_id bookmark_id (some (make_etag old.version)))
  old_etag-Refusal now now' db after changes changes' if_match old b d found h =
      let lost =
        old_etag_loses engine casing user_id bookmark_id now db after changes if_match old b d found
          h in
      (
        conflict-Refusal after b.version (update_stops now' after after changes' _ _ lost),
        conflict-Refusal after b.version (delete_stops after after _ _ lost),
      )
