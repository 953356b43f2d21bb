-- ===== src/Store/Isolation.antt =====
-- On the requests of app/services/bookmark/service.py, seen by the other users.
use bookmarks_api.Prelude.{
  ℕ, ◌≡◌, ◌≢◌, refl, sym, ap, subst, ◌∙◌, false, Option, none, some, List, [], ◌∷◌, arith, find,
  ◌==◌, Bool-cases, inl, inr,
}
use bookmarks_api.Text.Casing.{Casing}
use bookmarks_api.Models.{Bookmark, Db, Engine, has_id}
use bookmarks_api.Repository.Queries.{get_owned}
use bookmarks_api.Repository.Bookmarks.Rows.{ids, owned, IsDistinct}
use bookmarks_api.Security.{Jwt, Hasher, TokenProvider}
use bookmarks_api.Integrity.{IsValid, Writes}
use bookmarks_api.Integrity.Keeps.{Writes-IsValid}
use bookmarks_api.Integrity.Requests.{register-Writes, create-Writes}
use bookmarks_api.Integrity.Mutations.{update-Writes, delete-Writes}
use bookmarks_api.Store.{Store, view_rows, view, put, mine, Move, IsKept, Request}
use bookmarks_api.Store
use bookmarks_api.Store.Refinement.{Request-Move}

find-owned_absent :
    (user_id i : ℕ) (rows : List Bookmark)
    → has_id i (ids rows) ≡ false
    → find (owned user_id i) rows ≡ none
unfolding find has_id
find-owned_absent user_id i [] h = refl
find-owned_absent user_id i (r ∷ rows) h = ground (arith, find-owned_absent user_id i rows)

find-mine :
    (user_id i : ℕ) (rows : List Bookmark)
    → IsDistinct (ids rows)
    → find (owned user_id i) rows ≡ mine user_id (view_rows rows i)
unfolding find view_rows
find-mine user_id i [] d = refl
find-mine user_id i (r ∷ rows) (fresh, d) = elim (Bool-cases (r.id == i)) [
  | inl here ↦
      let absent : has_id i (ids rows) ≡ false =
        subst (λ j. has_id j (ids rows) ≡ false) (ground arith) fresh in
      ground (arith, find-owned_absent user_id i rows absent)
  | inr past ↦ ground (arith, find-mine user_id i rows d)
]

-- What a user is shown is the user's part of the row under the key.
get_owned-mine :
    (db : Db) (user_id i : ℕ)
    → IsDistinct (ids db.bookmarks)
    → get_owned db user_id i ≡ mine user_id (view db i)
unfolding get_owned
get_owned-mine db user_id i d = find-mine user_id i db.bookmarks d

-- A row of another user is no part of the user's.
not_mine : (v u : ℕ) (b : Bookmark) → v ≢ u → b.user_id ≡ v → mine u (some b) ≡ none
not_mine v u b ne owner = ground arith

put-mine :
    (u i : ℕ) (s : Store) (key : ℕ) (old new : Option Bookmark)
    → s key ≡ old
    → mine u old ≡ none
    → mine u new ≡ none
    → mine u (put s key new i) ≡ mine u (s i)
put-mine u i s key old new found before after = elim (Bool-cases (i == key)) [
  | inl here ↦
      let same : s i ≡ old = ap s (ground arith) ∙ found in
      rw here (after ∙ sym (ap (mine u) same ∙ before))
  | inr past ↦ rw past refl
]

Move-mine : (v u i : ℕ) {s t : Store} → v ≢ u → Move v s t → mine u (t i) ≡ mine u (s i)
Move-mine v u i ne Store.stays = refl
Move-mine v u i {s} ne (Store.creates b absent owner version) =
    put-mine u i s b.id none (some b) absent refl (not_mine v u b ne owner)
Move-mine v u i {s} ne (Store.replaces old b found owner key kept created version) =
    put-mine u i s old.id (some old) (some b) found (not_mine v u old ne owner)
      (not_mine v u b ne (kept ∙ owner))
Move-mine v u i {s} ne (Store.removes old found owner) =
    put-mine u i s old.id (some old) none found (not_mine v u old ne owner) refl

module _ (engine : Engine) (casing : Casing) (jwt : Jwt) (hasher : Hasher)
    (provider : TokenProvider) where
  pub Request-Writes :
      {v : ℕ} {db' after : Db}
      → Request engine casing jwt hasher provider v db' after
      → Writes db' after
  Request-Writes {db' = db'} (Store.registers now salt jti db username email password) =
      register-Writes engine casing jwt hasher provider now salt jti db db' username email password
  Request-Writes {v} {db'} (Store.creates now url title description tags) =
      create-Writes engine casing now v url title description tags db'
  Request-Writes {v} {db'} (Store.updates now db bookmark_id changes if_match k) =
      update-Writes engine casing now db db' v bookmark_id changes if_match
  Request-Writes {v} {db'} (Store.deletes db bookmark_id if_match k) =
      delete-Writes db db' v bookmark_id if_match

  -- Where the tables keep their constraints, a request of one user leaves every bookmark of another
  -- as it was: `get_owned` answers the other user the same before and after it.
  pub Request-get_owned :
      (v u i : ℕ) (db' after : Db)
      → IsValid db'
      → v ≢ u
      → Request engine casing jwt hasher provider v db' after
      → get_owned after u i ≡ get_owned db' u i
  Request-get_owned v u i db' after valid ne r =
      get_owned-mine after u i (Writes-IsValid (Request-Writes r) valid).bookmarks
      ∙ Move-mine v u i ne
          (Request-Move engine casing jwt hasher provider v db' after valid.bookmarks r)
      ∙ sym (get_owned-mine db' u i valid.bookmarks)

kept_user : (user_id : ℕ) (a b : Bookmark) → mine user_id (some b) ≡ some a → b.user_id ≡ user_id
kept_user user_id a b h = ground arith

-- A request that nobody came in between of has read what it commits to.
pub IsKept-refl : (user_id : ℕ) (db : Db) → IsDistinct (ids db.bookmarks) → IsKept user_id db db
IsKept-refl user_id db d i a b read stored =
    kept_user user_id a b
      (sym (ap (mine user_id) stored) ∙ sym (get_owned-mine db user_id i d) ∙ read)
