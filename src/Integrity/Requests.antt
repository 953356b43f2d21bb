-- ===== src/Integrity/Requests.antt =====
-- The requests that register a user or create a bookmark, as writes of one transaction.
use bookmarks_api.Prelude.{
  ℕ, ◌≡◌, refl, subst, true, some, Option, List, [], ◌∷◌, ◌++◌, All, All-map, arith, Bool-cases,
  Option-cases, inl, inr,
}
use bookmarks_api.Text.{Text, strip}
use bookmarks_api.Text.Casing.{Casing}
use bookmarks_api.Tags.{RawTag, normalize_tags}
use bookmarks_api.Models.{Tag, Bookmark, Db, Engine, has_id}
use bookmarks_api.Result.{Result, ok, raise, ◌>>=◌}
use bookmarks_api.Repository.Users.{is_taken, get_by_email, get_by_username}
use bookmarks_api.Repository.Users
use bookmarks_api.Repository.Tags.{get_or_create}
use bookmarks_api.Repository.Bookmarks.{insert_links, delete_links, new_links, is_current, tag_ids}
use bookmarks_api.Repository.Bookmarks
use bookmarks_api.Repository.Bookmarks.Rows.{ids}
use bookmarks_api.Security.{Jwt, Hasher, TokenProvider}
use bookmarks_api.Service.Auth.{with_token, register}
use bookmarks_api.Service.Auth.Uniqueness.{free}
use bookmarks_api.Service.Bookmarks.{or_rollback, resolve_tags, create}
use bookmarks_api.Integrity.{user_ids, add_user, add_bookmark, Writes, here, next, Writes-trans}
use bookmarks_api.Integrity.Tags.{IsStored, IsRow-IsStored, get_or_create-Writes}
use bookmarks_api.Integrity.Pairs.{insert_links-Writes}

has_id-snoc : (rows : List Bookmark) (b : Bookmark) → has_id b.id (ids (rows ++ b ∷ [])) ≡ true
unfolding has_id
has_id-snoc [] b = ground arith
has_id-snoc (r ∷ rows) b = ground (arith, has_id-snoc rows b)

module _ (engine : Engine) (casing : Casing) (jwt : Jwt) (hasher : Hasher)
    (provider : TokenProvider) (now salt : ℕ) (jti : Text) (db db' : Db)
    (username email password : Text) where
  add-Writes :
      (address password_hash : Text)
      → Writes db'
          (with_token engine casing jwt hasher provider now jti
            (Users.add engine now db' username address password_hash)).1
  unfolding with_token Users.add
  add-Writes address password_hash = elim (Bool-cases (is_taken engine db' username address)) [
    | inl gone ↦ rw gone here
    | inr open_ ↦ rw open_ (
        next here (
          add_user _ (engine.new_id-fresh (user_ids db'.users))
            (free engine casing jwt hasher provider now salt jti db db' username email password
              address open_)
            refl))
  ]

  pub register-Writes :
      Writes db'
        (register engine casing jwt hasher provider now salt jti db db' username email password).1
  unfolding register
  register-Writes =
      elim (Option-cases (get_by_email engine casing db (casing.lower (strip email)))) [
        | inr (u, found) ↦ rw (found, register) here
        | inl absent ↦
            rw (absent, register)
              (elim (Option-cases (get_by_username db username)) [
                | inr (u, found) ↦ rw found here
                | inl none_yet ↦
                    rw none_yet
                      (add-Writes (casing.lower (strip email)) (hasher.hash salt password))
              ])
      ]

module _ (engine : Engine) (casing : Casing) where
  names-Writes :
      (names : Result (List Text)) (db : Db) {tags : List Tag} {flushed : Db}
      → (names >>= λ ns. ok (get_or_create engine ns db)) ≡ ok (tags, flushed)
      → Writes db flushed × All (IsStored flushed) tags
  names-Writes (ok ns) db h =
      subst (λ (o : List Tag × Db). Writes db o.1 × All (IsStored o.1) o.0) (ok_inj h)
        (let (w, rows) = get_or_create-Writes engine ns db in
          (w, All-map (IsRow-IsStored ((get_or_create engine ns db).1)) _ rows))
    where
      ok_inj : {x y : List Tag × Db} → ok x ≡ ok y → x ≡ y
      ok_inj e = cc
  names-Writes (raise e) db h = cc

  -- The tags of a request are rows of the table once they are resolved.
  pub resolve_tags-Writes :
      (raw : List RawTag) (db : Db) {tags : List Tag} {flushed : Db}
      → resolve_tags engine casing raw db ≡ ok (tags, flushed)
      → Writes db flushed × All (IsStored flushed) tags
  unfolding resolve_tags
  resolve_tags-Writes raw db h = names-Writes (normalize_tags casing (some raw)) db h

  module _ (now : ℕ) (user_id : ℕ) (url title : Text) (description : Option Text) where
    -- `add`, or the rollback to `before`.
    pub or_rollback-Writes :
        (before db : Db) (tags : List Tag)
        → Writes before db
        → All (IsStored db) tags
        → Writes before
            (or_rollback before (Bookmarks.add engine now db url title description user_id tags)).1
    unfolding or_rollback Bookmarks.add
    or_rollback-Writes before db tags w s =
        let i = engine.new_id (ids db.bookmarks) in
        elim (Bool-cases (has_id user_id (user_ids db.users))) [
          | inr absent ↦ rw absent here
          | inl present ↦ rw present (elim (Option-cases (insert_links i tags db.bookmark_tags)) [
            | inl clash ↦ rw clash here
            | inr (links, linked) ↦
                let b : Bookmark = record {
                  id = i;
                  url = url;
                  title = title;
                  description = description;
                  user_id = user_id;
                  created_at = now;
                  updated_at = now;
                  version = 1;
                } in
                let db1 : Db = record db { bookmarks = db.bookmarks ++ b ∷ [] } in
                rw linked (
                  Writes-trans
                    (next w (
                      add_bookmark b (engine.new_id-fresh (ids db.bookmarks)) present (omega arith)
                        refl))
                    (insert_links-Writes db1 i tags db.bookmark_tags (has_id-snoc db.bookmarks b) s
                      linked))
          ])
        ]

    pub create-Writes :
        (tags : List RawTag) (db : Db)
        → Writes db (create engine casing now db user_id url title description tags).1
    unfolding create
    create-Writes tags db = from_resolved (resolve_tags engine casing tags db) refl
      where
        from_resolved :
            (resolved : Result (List Tag × Db))
            → resolve_tags engine casing tags db ≡ resolved
            → Writes db (create engine casing now db user_id url title description tags).1
        from_resolved (raise e) r = rw (r, create) here
        from_resolved (ok (tag_objs, flushed)) r =
            let (w, s) = resolve_tags-Writes tags db r in
            rw (r, create) (or_rollback-Writes db flushed tag_objs w s)
