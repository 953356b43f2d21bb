-- ===== src/Seed.antt =====
-- scripts/seed.py: the sample data, and the commits that put it into the database. Nothing else
-- writes while the script runs. A date and time is given by its day since 1970-01-01, its hour and
-- its minute. What the script prints is left out.
pub mod Rows
pub mod Laws
use bookmarks_api.Prelude.{ℕ, ◌+◌, ◌*◌, Bool, Option, some, List, [], ◌∷◌, if◌then◌else◌}
use bookmarks_api.Text.{Text, codes}
use bookmarks_api.Models.{User, Bookmark, Db, Engine}
use bookmarks_api.Result.{Result, ok, raise}
use bookmarks_api.Repository.Tags.{get_or_create}
use bookmarks_api.Repository.Users
use bookmarks_api.Repository.Bookmarks
use bookmarks_api.Security.{Hasher}
use bookmarks_api.Service.Bookmarks.{or_rollback}

abbrev pub seed_password : Text
seed_password = codes "password123"

-- A tuple of the sample data.
pub record SeedRow : Type 0 where
  pub title : Text
  pub url : Text
  pub description : Text
  pub tags : List Text
  pub created_at : ℕ

abbrev pub row : Text → Text → Text → List Text → ℕ → SeedRow
row title url description tags created_at = record {
  title = title;
  url = url;
  description = description;
  tags = tags;
  created_at = created_at;
}

abbrev pub utc : ℕ → ℕ → ℕ → ℕ
utc day hour minute = ((day * 24 + hour) * 60 + minute) * 60000000

-- `ALICE_BOOKMARKS`
unfoldable pub alice_bookmarks : List SeedRow
alice_bookmarks =
    row (codes "FastAPI docs") (codes "https://fastapi.tiangolo.com/")
      (codes "The official FastAPI documentation.")
      (codes "python" ∷ codes "fastapi" ∷ codes "backend" ∷ []) (utc 20096 9 0)
    ∷ row (codes "SQLAlchemy 2.0 ORM") (codes "https://docs.sqlalchemy.org/en/20/orm/")
        (codes "Typed ORM guide.") (codes "python" ∷ codes "sql" ∷ codes "orm" ∷ [])
        (utc 20107 14 30)
    ∷ row (codes "Use The Index, Luke") (codes "https://use-the-index-luke.com/")
        (codes "SQL indexing & performance.") (codes "sql" ∷ codes "performance" ∷ [])
        (utc 20115 11 0)
    ∷ row (codes "PyJWT") (codes "https://pyjwt.readthedocs.io/") (codes "JWT in Python.")
        (codes "python" ∷ codes "auth" ∷ codes "security" ∷ []) (utc 20122 8 15)
    ∷ row (codes "REST API design") (codes "https://restfulapi.net/") (codes "RESTful conventions.")
        (codes "backend" ∷ codes "api" ∷ codes "design" ∷ []) (utc 20133 16 45)
    ∷ row (codes "Twelve-Factor App") (codes "https://12factor.net/")
        (codes "Methodology for SaaS apps.")
        (codes "backend" ∷ codes "design" ∷ codes "devops" ∷ []) (utc 20141 10 5)
    ∷ row (codes "pytest docs") (codes "https://docs.pytest.org/") (codes "Testing framework.")
        (codes "python" ∷ codes "testing" ∷ []) (utc 20151 13 0)
    ∷ row (codes "OpenAPI spec") (codes "https://spec.openapis.org/oas/latest.html")
        (codes "OpenAPI 3.1 specification.") (codes "api" ∷ codes "design" ∷ codes "openapi" ∷ [])
        (utc 20159 9 30)
    ∷ row (codes "Alembic tutorial")
        (codes "https://alembic.sqlalchemy.org/en/latest/tutorial.html") (codes "DB migrations.")
        (codes "python" ∷ codes "sql" ∷ codes "migrations" ∷ []) (utc 20167 15 20)
    ∷ row (codes "bcrypt") (codes "https://github.com/pyca/bcrypt") (codes "Password hashing.")
        (codes "python" ∷ codes "auth" ∷ codes "security" ∷ []) (utc 20180 12 0)
    ∷ row (codes "Podman docs") (codes "https://docs.podman.io/") (codes "Daemonless containers.")
        (codes "devops" ∷ codes "containers" ∷ []) (utc 20187 17 10)
    ∷ row (codes "PostgreSQL docs") (codes "https://www.postgresql.org/docs/")
        (codes "The Postgres manual.") (codes "sql" ∷ codes "postgres" ∷ codes "backend" ∷ [])
        (utc 20196 8 40)
    ∷ []

-- `BOB_BOOKMARKS`
unfoldable pub bob_bookmarks : List SeedRow
bob_bookmarks =
    row (codes "Bob's reading list") (codes "https://example.com/bob") (codes "Private to bob.")
      (codes "personal" ∷ []) (utc 20148 10 0)
    ∷ row (codes "Rust book") (codes "https://doc.rust-lang.org/book/") (codes "Learning Rust.")
        (codes "rust" ∷ codes "tutorial" ∷ []) (utc 20179 10 0)
    ∷ []

-- The rest of the script runs on what a step has committed, unless the step raised.
unfoldable pub and_then {ℓ κ} :
    {A : Type ℓ} {B : Type κ} → Result A × Db → (A → Db → Result B × Db) → Result B × Db
and_then (raise e, db) rest = (raise e, db)
and_then (ok a, db) rest = rest a db

module _ (engine : Engine) where
  -- The loop of `_add_bookmarks`
  unfoldable pub add_rows : ℕ → List SeedRow → Db → Result (Unit {0}) × Db
  add_rows user_id [] db = (ok tt, db)
  add_rows user_id (r ∷ rows) db =
      let (tags, flushed) = get_or_create engine r.tags db in
      and_then
        (Bookmarks.add engine r.created_at flushed r.url r.title (some r.description) user_id tags)
        (λ bookmark. add_rows user_id rows)

  -- `_add_bookmarks`: one transaction
  unfoldable pub add_bookmarks : ℕ → List SeedRow → Db → Result (Unit {0}) × Db
  unfolding add_rows
  add_bookmarks user_id rows db = or_rollback db (add_rows user_id rows db)

-- `_reset`
unfoldable pub reset : Db → Db
reset db = record db { bookmark_tags = []; bookmarks = []; tags = []; users = [] }

module _ (engine : Engine) (hasher : Hasher) where
  -- `_create_user`: the same INSERT and commit as that of `UserRepository.add`.
  unfoldable pub create_user : ℕ → ℕ → Db → Text → Text → Result User × Db
  create_user now salt db username email =
      Users.add engine now db username email (hasher.hash salt seed_password)

  -- The body of `seed` behind its guard: four commits.
  unfoldable pub seed_all : ℕ → ℕ → ℕ → ℕ → Db → Result (Unit {0}) × Db
  unfolding create_user add_bookmarks
  seed_all now salt now' salt' db =
      and_then (create_user now salt db (codes "alice") (codes "alice@example.com")) (λ alice db1.
        and_then (create_user now' salt' db1 (codes "bob") (codes "bob@example.com")) (λ bob db2.
          and_then (add_bookmarks engine alice.id alice_bookmarks db2)
            (λ done. add_bookmarks engine bob.id bob_bookmarks)))

  -- `seed` on what `--reset` has left, if it was given
  unfoldable pub seed_unless : ℕ → ℕ → ℕ → ℕ → Db → List User → Result (Unit {0}) × Db
  unfolding seed_all
  seed_unless now salt now' salt' db [] = seed_all now salt now' salt' db
  seed_unless now salt now' salt' db (user ∷ users) = (ok tt, db)

  -- `seed`
  unfoldable pub seed : ℕ → ℕ → ℕ → ℕ → Bool → Db → Result (Unit {0}) × Db
  unfolding seed_unless reset
  seed now salt now' salt' reset_first db =
      let start = if reset_first then reset db else db in
      seed_unless now salt now' salt' start start.users
