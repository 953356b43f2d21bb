-- ===== src/Examples.antt =====
-- Concrete inputs: a small database, an engine that counts keys up, and the ASCII casing.
mod Basics
mod Guards
mod Bookmarks
mod Listing
mod Libraries
mod Accounts
mod Requests
mod Databases
mod Deployment
use bookmarks_api.Prelude.{
  ℕ, suc, ◌<◌, max, ◌≡◌, refl, false, none, some, List, [], ◌∷◌, arith, ltb, length,
}
use bookmarks_api.Text.{Text, codes}
use bookmarks_api.Text.Casing.{ascii_lower}
use bookmarks_api.Models.{Bookmark, Db, Engine, has_id}
use bookmarks_api.Service.Bookmarks.{Changes}

unfoldable pub largest : List ℕ → ℕ
largest [] = 0
largest (i ∷ is) = max i (largest is)

pub largest-fresh : (i : ℕ) (is : List ℕ) → largest is < i → has_id i is ≡ false
unfolding largest has_id
largest-fresh i [] h = refl
largest-fresh i (j ∷ js) h = ground (arith, largest-fresh i js)

-- Keys count up, `lower` is that of ASCII, and texts are ordered by their length.
abbrev pub counting_engine : Engine
counting_engine = record {
  new_id = λ is. suc (largest is);
  new_id-fresh = λ is. largest-fresh (suc (largest is)) is (omega arith);
  sql_lower = ascii_lower;
  text_before = λ s t. ltb (length s) (length t);
}

abbrev pub first_bookmark : Bookmark
first_bookmark = record {
  id = 1;
  url = codes "https://a.example";
  title = codes "Old";
  description = none;
  user_id = 7;
  created_at = 10;
  updated_at = 10;
  version = 3;
}

abbrev pub second_bookmark : Bookmark
second_bookmark = record first_bookmark { id = 2; title = codes "Second"; version = 1 }

abbrev pub renamed_bookmark : Bookmark
renamed_bookmark = record first_bookmark { title = codes "New"; updated_at = 20; version = 4 }

abbrev pub two_bookmarks : Db
two_bookmarks = record {
  users = [];
  tags = [];
  bookmarks = first_bookmark ∷ second_bookmark ∷ [];
  bookmark_tags = [];
}

abbrev pub renamed_db : Db
renamed_db = record two_bookmarks { bookmarks = renamed_bookmark ∷ second_bookmark ∷ [] }

abbrev pub rename : Changes
rename = record { url = none; title = some (codes "New"); description = none; tags = none }
