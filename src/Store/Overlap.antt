-- ===== src/Store/Overlap.antt =====
-- On requests of app/services/bookmark/service.py that were read from the same state of the database.
use bookmarks_api.Prelude.{
  ℕ, ◌+◌, ◌<◌, ◌≡◌, refl, sym, ap, subst, ◌∙◌, Option, none, some, arith, find, ◌==◌, Bool-cases,
  Option-cases, inl, inr,
}
use mathlib.Core.Option.{some-injective}
use bookmarks_api.Text.{Text}
use bookmarks_api.Text.Casing.{Casing}
use bookmarks_api.Models.{Bookmark, Db, Engine}
use bookmarks_api.Result.{Exception, Result, ok, raise}
use bookmarks_api.Repository.Queries.{get_owned}
use bookmarks_api.Repository.Bookmarks.{is_current, update_row}
use bookmarks_api.Repository.Bookmarks.Rows.{find_holds}
use bookmarks_api.Security.{Jwt, Hasher, TokenProvider}
use bookmarks_api.Integrity.{IsValid}
use bookmarks_api.Integrity.Keeps.{Writes-IsValid}
use bookmarks_api.Integrity.Mutations.{update-Writes}
use bookmarks_api.Service.Bookmarks.{Changes, assign, update, delete, load, tags_of}
use bookmarks_api.Service.Bookmarks.Guards.{get_owned-keys, load_owned}
use bookmarks_api.Service.Bookmarks.Locking.{HasKeys, update-Run, update-Committed}
use bookmarks_api.Service.Bookmarks.Versions.{second-raises, IsStale}
use bookmarks_api.Service.Bookmarks.Deletion.{Removal, removed, refused, commit-Removal}
use bookmarks_api.Store.{Store, view, put, Move, Request}
use bookmarks_api.Store
use bookmarks_api.Store.Rows.{view_rows-current, view_rows-update_rows}
use bookmarks_api.Store.Refinement.{Request-Move}
use bookmarks_api.Store.Isolation.{Request-Writes}

-- A row under this key, if there is one, has a later version.
abbrev IsPast : ℕ → ℕ → Store → Type 0
IsPast i version s = (b : Bookmark) → s i ≡ some b → version < b.version

put-IsPast :
    (i version key : ℕ) (s : Store) (new : Option Bookmark)
    → ((b : Bookmark) → i ≡ key → new ≡ some b → version < b.version)
    → IsPast i version s
    → IsPast i version (put s key new)
put-IsPast i version key s new here there b = elim (Bool-cases (i == key)) [
  | inl same ↦ λ h. here b (ground arith) (rw same at h)
  | inr other ↦ λ h. there b (rw other at h)
]

-- A move that brings no new row under the key only goes on to later versions.
Move-IsPast :
    (i version user_id : ℕ) {s t : Store}
    → (s i ≡ none → t i ≡ none)
    → Move user_id s t
    → IsPast i version s
    → IsPast i version t
Move-IsPast i version user_id fresh Store.stays p = p
Move-IsPast i version user_id {s} fresh (Store.creates b gone owner first) p =
    put-IsPast i version b.id s (some b)
      (λ c same h.
        let lost : put s b.id (some b) i ≡ none = fresh (ap s same ∙ gone) in
        let placed : put s b.id (some b) i ≡ some b = ground arith in
        absurd (clash (sym lost ∙ placed)))
      p
  where
    clash : none ≡ some b → ⊥
    clash h = cc
Move-IsPast i version user_id {s} fresh (Store.replaces old b stored owner key same_owner made next)
      p =
    put-IsPast i version old.id s (some b)
      (λ c same h.
        let before = p old (ap s same ∙ stored) in
        let e : b ≡ c = some-injective b c h in
        subst (λ (x : Bookmark). version < x.version) e (ground arith))
      p
Move-IsPast i version user_id {s} fresh (Store.removes old stored owner) p =
    put-IsPast i version old.id s none (λ c same h. absurd (cc h)) p

module _ (engine : Engine) (casing : Casing) (jwt : Jwt) (hasher : Hasher)
    (provider : TokenProvider) (bookmark_id : ℕ) where
  -- Any number of requests of any users, of which none creates a bookmark under this key again.
  pub data Meanwhile (db : Db) : Db → Type 0 where
    none_yet : Meanwhile db db
    one_more :
        {mid after : Db} (user_id : ℕ)
        → Meanwhile db mid
        → Request engine casing jwt hasher provider user_id mid after
        → (view mid bookmark_id ≡ none → view after bookmark_id ≡ none)
        → Meanwhile db after

  Meanwhile-IsPast :
      (version : ℕ) {db later : Db}
      → IsValid db
      → IsPast bookmark_id version (view db)
      → Meanwhile db later
      → IsValid later × IsPast bookmark_id version (view later)
  Meanwhile-IsPast version v p none_yet = (v, p)
  Meanwhile-IsPast version v p (one_more {mid} {after} user_id m r fresh) =
      let (valid, past) = Meanwhile-IsPast version v p m in
      (
        Writes-IsValid (Request-Writes engine casing jwt hasher provider r) valid,
        Move-IsPast bookmark_id version user_id fresh
            (Request-Move engine casing jwt hasher provider user_id mid after valid.bookmarks r)
            past,
      )

  IsPast-stale :
      (old : Bookmark) (db : Db)
      → HasKeys db
      → IsPast old.id old.version (view db)
      → find (is_current old) db.bookmarks ≡ none
  IsPast-stale old db d p = elim (Option-cases (find (is_current old) db.bookmarks)) [
    | inl gone ↦ gone
    | inr (row, found) ↦
        let (same, stored) = view_rows-current old db.bookmarks row d found in
        let past = p row stored in
        let current = find_holds (is_current old) db.bookmarks found in absurd (ground arith)
  ]

  module _ (user_id : ℕ) where
    committed-IsPast :
        (now : ℕ) (db db' : Db) (changes : Changes) (if_match : Option Text) (b old : Bookmark)
        (after : Db)
        → HasKeys db'
        → update engine casing now db db' user_id bookmark_id changes if_match ≡ (ok b, after)
        → get_owned db user_id bookmark_id ≡ some old
        → IsPast bookmark_id old.version (view after)
    unfolding update_row
    committed-IsPast now db db' changes if_match b old after d h found =
        let c =
          update-Committed engine casing now db db' user_id bookmark_id changes if_match b after
            h in
        let same : c.old ≡ old = some-injective c.old old (sym c.loaded ∙ found) in
        let key = (get_owned-keys db user_id bookmark_id c.old c.loaded).0 in
        λ x stored.
          let placed =
            ap (λ rs. Store.view_rows rs bookmark_id) c.updated.rows
            ∙ view_rows-update_rows now c.old (assign changes c.old) db'.bookmarks c.updated.row
                bookmark_id d c.updated.found in
          let here_ : put (view db') c.old.id
                (some (update_row now c.old (assign changes c.old) c.updated.row)) bookmark_id
              ≡ some (update_row now c.old (assign changes c.old) c.updated.row) =
            ground arith in
          let e = some-injective _ _ (sym stored ∙ placed ∙ here_) in
          let v : x.version ≡ c.old.version + 1 = ap (λ (y : Bookmark). y.version) e in
          let w : c.old.version ≡ old.version = ap (λ (y : Bookmark). y.version) same in omega arith

    module _ (now now' : ℕ) (db db' after later : Db) (changes changes' : Changes)
        (if_match if_match' : Option Text) (b : Bookmark) where
      overtaken :
          IsValid db'
          → update engine casing now db db' user_id bookmark_id changes if_match ≡ (ok b, after)
          → Meanwhile after later
          → (old : Bookmark) → get_owned db user_id bookmark_id ≡ some old
          → find (is_current old) later.bookmarks ≡ none
      overtaken v h m old found =
          let key = (get_owned-keys db user_id bookmark_id old found).0 in
          let valid = subst IsValid (ap (λ (o : Result Bookmark × Db). o.1) h) (
            Writes-IsValid
              (update-Writes engine casing now db db' user_id bookmark_id changes if_match) v) in
          let (kept, past) =
            Meanwhile-IsPast old.version valid
              (committed-IsPast now db db' changes if_match b old after v.bookmarks h found) m in
          IsPast-stale old later kept.bookmarks
            (subst (λ i. IsPast i old.version (view later)) (sym key) past)

      Removal-raises :
          {loaded : Bookmark} {out : Result (Unit {0}) × Db}
          → find (is_current loaded) later.bookmarks ≡ none
          → Removal loaded later out
          → (e : Exception) × (out ≡ (raise e, later))
      Removal-raises gone (removed row done found rows pairs) = absurd (ground (arith, gone, found))
      Removal-raises gone (refused e) = (e, refl)

      delete_raises :
          IsValid db'
          → update engine casing now db db' user_id bookmark_id changes if_match ≡ (ok b, after)
          → Meanwhile after later
          → (e : Exception) × (delete db later user_id bookmark_id if_match' ≡ (raise e, later))
      unfolding delete
      delete_raises v h m = from_load (load db user_id bookmark_id if_match') refl
        where
          from_load :
              (r : Result Bookmark)
              → load db user_id bookmark_id if_match' ≡ r
              → (e : Exception) × (delete db later user_id bookmark_id if_match' ≡ (raise e, later))
          from_load (raise e) l = (e, rw (l, delete))
          from_load (ok loaded) l =
              rw (l, delete)
                (Removal-raises
                  (overtaken v h m loaded (load_owned db user_id bookmark_id if_match' loaded l))
                  (commit-Removal later loaded (tags_of db loaded) user_id bookmark_id))

      -- No lost update: where the tables keep their constraints, an update or a deletion that has
      -- read the same state of a user's bookmark as an update that is committed already raises,
      -- whatever its If-Match, and leaves the database as it was. Any requests of any users may
      -- have run in between, as long as none of them creates a bookmark under the same key after
      -- this one is removed, and none of them reads keys that have passed to other users since.
      pub overlapping_raises :
          IsValid db'
          → update engine casing now db db' user_id bookmark_id changes if_match ≡ (ok b, after)
          → Meanwhile after later
          → ((e : Exception) × (update engine casing now' db later user_id bookmark_id changes'
                  if_match'
                ≡ (raise e, later)))
            × ((e : Exception) × (delete db later user_id bookmark_id if_match' ≡ (raise e, later)))
      unfolding IsStale
      overlapping_raises v h m = (
        second-raises engine casing user_id bookmark_id now' db later changes' if_match'
            (overtaken v h m)
            (update-Run engine casing now' db later user_id bookmark_id changes' if_match'),
        delete_raises v h m,
      )
