-- ===== src/Service/Bookmarks/Guards.antt =====
-- The guards of a mutation: ownership, and the `If-Match` precondition.
use bookmarks_api.Prelude.{
  ℕ, ◌≡◌, refl, subst, true, false, Option, none, some, arith, Option-cases, Bool-cases, inl, inr,
}
use mathlib.Core.Option.{some-injective}
use bookmarks_api.Text.{Text, is_empty, strip}
use bookmarks_api.Etag.{make_etag, matches}
use bookmarks_api.Models.{Bookmark, Db}
use bookmarks_api.Result.{Result, ok, raise, app, ◌>>=◌}
use bookmarks_api.Repository.Queries.{get_owned}
use bookmarks_api.Repository.Bookmarks.Rows.{owned, find_holds}
use bookmarks_api.Service.Bookmarks.{
  check_precondition, conflict, precondition_required, not_found, get, load,
}

-- A row that `get_owned` returns is the one asked for.
pub get_owned-keys :
    (db : Db) (user_id bookmark_id : ℕ) (b : Bookmark)
    → get_owned db user_id bookmark_id ≡ some b
    → (b.id ≡ bookmark_id) × (b.user_id ≡ user_id)
unfolding get_owned
get_owned-keys db user_id bookmark_id b h =
    let found = find_holds (owned user_id bookmark_id) db.bookmarks h in ground arith

-- The answer of the guards, read off the database and the header.
pub data Answer : Db → ℕ → ℕ → Option Text → Result Bookmark → Type 0 where
  missing :
      {db : Db} {user_id bookmark_id : ℕ} {if_match : Option Text}
      → get_owned db user_id bookmark_id ≡ none
      → Answer db user_id bookmark_id if_match (raise (app (not_found bookmark_id)))
  unconditional :
      {db : Db} {user_id bookmark_id : ℕ} {if_match : Option Text} (b : Bookmark)
      → get_owned db user_id bookmark_id ≡ some b
      → ((h : Text) → if_match ≡ some h → is_empty (strip h) ≡ true)
      → Answer db user_id bookmark_id if_match
          (raise (app (precondition_required (make_etag b.version))))
  mismatch :
      {db : Db} {user_id bookmark_id : ℕ} {if_match : Option Text} (b : Bookmark) (h : Text)
      → get_owned db user_id bookmark_id ≡ some b
      → if_match ≡ some h
      → is_empty (strip h) ≡ false
      → matches h b.version ≡ false
      → Answer db user_id bookmark_id if_match (raise (app (conflict (some (make_etag b.version)))))
  passed :
      {db : Db} {user_id bookmark_id : ℕ} {if_match : Option Text} (b : Bookmark) (h : Text)
      → get_owned db user_id bookmark_id ≡ some b
      → if_match ≡ some h
      → is_empty (strip h) ≡ false
      → matches h b.version ≡ true
      → Answer db user_id bookmark_id if_match (ok b)

check-Answer :
    (db : Db) (user_id bookmark_id : ℕ) (if_match : Option Text) (b : Bookmark)
    → get_owned db user_id bookmark_id ≡ some b
    → Answer db user_id bookmark_id if_match (check_precondition b if_match >>= λ _. ok b)
unfolding check_precondition
check-Answer db user_id bookmark_id none b found = unconditional b found (λ h e. cc)
check-Answer db user_id bookmark_id (some h) b found = elim (Bool-cases (is_empty (strip h))) [
  | inl blank ↦ rw blank (
      unconditional b found
        (λ h' e. subst (λ t. is_empty (strip t) ≡ true) (some-injective h h' e) blank))
  | inr given ↦ elim (Bool-cases (matches h b.version)) [
    | inl same ↦ rw (given, same) (passed b h found refl given same)
    | inr differs ↦ rw (given, differs) (mismatch b h found refl given differs)
  ]
]

pub load-Answer :
    (db : Db) (user_id bookmark_id : ℕ) (if_match : Option Text)
    → Answer db user_id bookmark_id if_match (load db user_id bookmark_id if_match)
unfolding load get
load-Answer db user_id bookmark_id if_match =
    elim (Option-cases (get_owned db user_id bookmark_id)) [
      | inl absent ↦ rw (absent, get, load) (missing absent)
      | inr (b, found) ↦
          rw (found, get, load) (check-Answer db user_id bookmark_id if_match b found)
    ]

Answer-ok :
    {db : Db} {user_id bookmark_id : ℕ} {if_match : Option Text} {r : Result Bookmark}
    → Answer db user_id bookmark_id if_match r
    → (b : Bookmark) → r ≡ ok b
    → get_owned db user_id bookmark_id ≡ some b
Answer-ok (missing absent) b h = cc
Answer-ok (unconditional b' found blank) b h = cc
Answer-ok (mismatch b' t found given nonblank differs) b h = cc
Answer-ok (passed b' t found given nonblank same) b h = cc

-- What passes the guards is the caller's bookmark.
pub load_owned :
    (db : Db) (user_id bookmark_id : ℕ) (if_match : Option Text) (b : Bookmark)
    → load db user_id bookmark_id if_match ≡ ok b
    → get_owned db user_id bookmark_id ≡ some b
load_owned db user_id bookmark_id if_match = Answer-ok (load-Answer db user_id bookmark_id if_match)

-- A header that does not name the version is answered with the 412 and the current ETag.
pub load_mismatch :
    (db : Db) (user_id bookmark_id : ℕ) (h : Text) (b : Bookmark)
    → get_owned db user_id bookmark_id ≡ some b
    → is_empty (strip h) ≡ false
    → matches h b.version ≡ false
    → load db user_id bookmark_id (some h) ≡ raise (app (conflict (some (make_etag b.version))))
unfolding load get check_precondition
load_mismatch db user_id bookmark_id h b found given differs =
    rw (found, get, load) (rw (given, differs, check_precondition))
