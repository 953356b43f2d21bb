-- ===== src/Models.antt =====
-- app/models: the rows of the tables, and the database as its tables. A date and time is a count of
-- microseconds. Code of the database engine that the repository does not hold is a parameter.
use bookmarks_api.Prelude.{ℕ, ◌≡◌, Bool, true, false, Option, List, [], ◌∷◌, ◌==◌, if◌then◌else◌}
use bookmarks_api.Text.{Text}

-- `User`
pub record User : Type 0 where
  pub id : ℕ
  pub username : Text
  pub email : Text
  pub password_hash : Text
  pub created_at : ℕ

-- `Tag`
pub record Tag : Type 0 where
  pub id : ℕ
  pub name : Text

-- The columns of `Bookmark`.
pub record Bookmark : Type 0 where
  pub id : ℕ
  pub url : Text
  pub title : Text
  pub description : Option Text
  pub user_id : ℕ
  pub created_at : ℕ
  pub updated_at : ℕ
  pub version : ℕ

-- A row of `bookmark_tags`.
pub record Link : Type 0 where
  pub bookmark_id : ℕ
  pub tag_id : ℕ

pub record Db : Type 0 where
  pub users : List User
  pub tags : List Tag
  pub bookmarks : List Bookmark
  pub bookmark_tags : List Link

abbrev pub empty_db : Db
empty_db = record { users = []; tags = []; bookmarks = []; bookmark_tags = [] }

unfoldable pub has_id : ℕ → List ℕ → Bool
has_id i [] = false
has_id i (j ∷ js) = let rest = has_id i js in if j == i then true else rest

-- What the program relies on of the database engine.
pub record Engine : Type 0 where
  -- The key of a new row, given the keys of the table.
  pub new_id : List ℕ → ℕ
  pub new_id-fresh : (ids : List ℕ) → has_id (new_id ids) ids ≡ false
  -- The SQL function `lower`.
  pub sql_lower : Text → Text
  -- The collation of a text column.
  pub text_before : Text → Text → Bool
