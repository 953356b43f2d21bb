-- ===== src/Seed/Laws.antt =====
-- On `seed` of scripts/seed.py.
use bookmarks_api.Prelude.{
  ℕ, ◌≡◌, refl, sym, ap, ap₂, subst, ◌∙◌, Bool, true, false, [], ◌∷◌, ◌++◌, map, All, arith, find,
  if◌then◌else◌,
}
use bookmarks_api.Text.{Text, codes, text_eq}
use bookmarks_api.Tags.{member}
use bookmarks_api.Tags.Laws.{IsDistinct}
use bookmarks_api.Models.{User, Db, Engine, empty_db, has_id}
use bookmarks_api.Result.{Result, ok}
use bookmarks_api.Repository.Users.{is_taken}
use bookmarks_api.Repository.Users
use bookmarks_api.Security.{Hasher}
use bookmarks_api.Integrity.{user_ids, IsValid, add_user}
use bookmarks_api.Integrity.Keeps.{empty-IsValid, Write-IsValid}
use bookmarks_api.Seed.{
  seed_password, alice_bookmarks, bob_bookmarks, and_then, create_user, add_bookmarks, reset,
  seed_all, seed_unless, seed,
}
use bookmarks_api.Seed.Rows.{
  shown, shown_row, AllTagged, map-append, AllTagged-kept, AllTagged-append, Stored,
  add_bookmarks-Stored,
}

alice-IsDistinct : All (λ r. IsDistinct r.tags) alice_bookmarks
unfolding alice_bookmarks member text_eq codes
alice-IsDistinct = ground arith

bob-IsDistinct : All (λ r. IsDistinct r.tags) bob_bookmarks
unfolding bob_bookmarks member text_eq codes
bob-IsDistinct = ground arith

module _ (engine : Engine) (hasher : Hasher) (now salt now' salt' : ℕ) where
  new_user : ℕ → ℕ → Text → Text → ℕ → User
  new_user created_at s username email id = record {
    id = id;
    username = username;
    email = email;
    password_hash = hasher.hash s seed_password;
    created_at = created_at;
  }

  alice : User
  alice = new_user now salt (codes "alice") (codes "alice@example.com") (engine.new_id [])

  bob : User
  bob = new_user now' salt' (codes "bob") (codes "bob@example.com") (engine.new_id (alice.id ∷ []))

  db1 : Db
  db1 = record empty_db { users = alice ∷ [] }

  db2 : Db
  db2 = record empty_db { users = alice ∷ bob ∷ [] }

  create_alice :
      create_user engine hasher now salt empty_db (codes "alice") (codes "alice@example.com")
      ≡ (ok alice, db1)
  unfolding create_user Users.add is_taken find alice db1 new_user
  create_alice = refl

  create_bob :
      create_user engine hasher now' salt' db1 (codes "bob") (codes "bob@example.com")
      ≡ (ok bob, db2)
  unfolding create_user Users.add is_taken find alice bob db1 db2 new_user text_eq codes
  create_bob = refl

  db1-IsValid : IsValid db1
  unfolding db1 alice new_user find
  db1-IsValid =
      Write-IsValid {db = empty_db} (add_user alice (engine.new_id-fresh []) refl refl)
        empty-IsValid

  db2-IsValid : IsValid db2
  unfolding db1 db2 alice bob new_user find text_eq codes
  db2-IsValid =
      Write-IsValid {db = db1} (add_user bob (engine.new_id-fresh (alice.id ∷ [])) refl refl)
        db1-IsValid

  -- What a seeded database holds.
  pub record Seeded (out : Result (Unit {0}) × Db) : Type 0 where
    pub after : Db
    pub done : out ≡ (ok tt, after)
    pub valid : IsValid after
    pub one : User
    pub two : User
    pub users : after.users ≡ one ∷ two ∷ []
    pub emails : (one.email ≡ codes "alice@example.com") × (two.email ≡ codes "bob@example.com")
    pub passwords :
        (hasher.verify seed_password one.password_hash ≡ true)
        × (hasher.verify seed_password two.password_hash ≡ true)
    pub bookmarks :
        map shown after.bookmarks
        ≡ map (shown_row one.id) alice_bookmarks ++ map (shown_row two.id) bob_bookmarks
    pub tagged : AllTagged after after.bookmarks (alice_bookmarks ++ bob_bookmarks)

  rows-Seeded :
      (first : Stored engine alice.id alice_bookmarks db2
        (add_bookmarks engine alice.id alice_bookmarks db2))
      → Stored engine bob.id bob_bookmarks first.after
          (add_bookmarks engine bob.id bob_bookmarks first.after)
      → Seeded (seed_all engine hasher now salt now' salt' empty_db)
  unfolding seed_all and_then db2 alice bob new_user
  rows-Seeded first second = record {
    after = second.after;
    done =
        ap
          (λ (o : Result User × Db). and_then o (λ a d1.
            and_then
              (create_user engine hasher now' salt' d1 (codes "bob") (codes "bob@example.com"))
              (λ b d2.
                and_then (add_bookmarks engine a.id alice_bookmarks d2)
                  (λ done. add_bookmarks engine b.id bob_bookmarks))))
          create_alice
        ∙ ap
            (λ (o : Result User × Db). and_then o (λ b d2.
              and_then (add_bookmarks engine alice.id alice_bookmarks d2)
                (λ done. add_bookmarks engine b.id bob_bookmarks)))
            create_bob
        ∙ ap
            (λ (o : Result (Unit {0}) × Db).
              and_then o (λ done. add_bookmarks engine bob.id bob_bookmarks))
            first.done
        ∙ second.done;
    valid = second.valid;
    one = alice;
    two = bob;
    users = second.users ∙ first.users;
    emails = (refl, refl);
    passwords = (hasher.verify-hash salt seed_password, hasher.verify-hash salt' seed_password);
    bookmarks =
        ap (map shown) (second.bookmarks ∙ ap (λ bs. bs ++ second.added) first.bookmarks)
        ∙ map-append shown first.added second.added
        ∙ ap₂ ◌++◌ first.shows second.shows;
    tagged =
        subst (λ bs. AllTagged second.after bs (alice_bookmarks ++ bob_bookmarks))
          (sym (second.bookmarks ∙ ap (λ bs. bs ++ second.added) first.bookmarks))
          (AllTagged-append second.after first.added second.added alice_bookmarks bob_bookmarks
            (AllTagged-kept first.after second.after first.added alice_bookmarks second.kept
              first.present first.tagged)
            second.tagged);
  }

  present_alice : has_id alice.id (user_ids db2.users) ≡ true
  unfolding db2 has_id
  present_alice = ground arith

  present_bob : has_id bob.id (user_ids db2.users) ≡ true
  unfolding db2 has_id
  present_bob = ground arith

  seed_all-Seeded : Seeded (seed_all engine hasher now salt now' salt' empty_db)
  seed_all-Seeded =
      let first =
        add_bookmarks-Stored engine alice.id alice_bookmarks db2 db2-IsValid present_alice
          alice-IsDistinct in
      rows-Seeded first (
        add_bookmarks-Stored engine bob.id bob_bookmarks first.after first.valid
          (subst (λ us. has_id bob.id (user_ids us) ≡ true) (sym first.users) present_bob)
          bob-IsDistinct)

  -- With --reset, or on an empty database, the script succeeds: the tables keep their constraints
  -- and hold two users, whose stored hashes the password of the script matches, and exactly the
  -- sample bookmarks of each, in their order: a bookmark has the title, URL, description and time
  -- of its sample and the owner's key, and the names of its tags are those of the sample.
  pub seed-Seeded :
      (reset_first : Bool) (db : Db)
      → (if reset_first then reset db else db) ≡ empty_db
      → Seeded (seed engine hasher now salt now' salt' reset_first db)
  unfolding seed seed_unless
  seed-Seeded reset_first db start =
      subst (λ d. Seeded (seed_unless engine hasher now salt now' salt' d d.users)) (sym start)
        seed_all-Seeded

-- On a database with users the script without `--reset` does nothing: a second run leaves what the
-- first one stored.
pub seed_again :
    (engine : Engine) (hasher : Hasher) (now salt now' salt' : ℕ) (later salt1 later' salt2 : ℕ)
    (reset_first : Bool) (db : Db)
    → (if reset_first then reset db else db) ≡ empty_db
    → seed engine hasher later salt1 later' salt2 false
        (seed engine hasher now salt now' salt' reset_first db).1
      ≡ (ok tt, (seed engine hasher now salt now' salt' reset_first db).1)
unfolding seed seed_unless
seed_again engine hasher now salt now' salt' later salt1 later' salt2 reset_first db start =
    let s = seed-Seeded engine hasher now salt now' salt' reset_first db start in
    skips (seed engine hasher now salt now' salt' reset_first db).1
      (ap (λ (o : Result (Unit {0}) × Db). o.1.users) s.done ∙ s.users)
  where
    skips :
        (d : Db) {u v : User}
        → d.users ≡ u ∷ v ∷ []
        → seed_unless engine hasher later salt1 later' salt2 d d.users ≡ (ok tt, d)
    skips d h = ap (seed_unless engine hasher later salt1 later' salt2 d) h
