-- ===== src/Repository/Stats.antt =====
-- app/repositories/stats/repository.py: the counts of a user's bookmarks, in all, by tag and by
-- month. `month_of` stands for the SQL function that writes the month of a time.
pub mod Laws
pub mod Counts
pub mod Ranking
pub mod Report
use bookmarks_api.Prelude.{
  ℕ, suc, ◌+◌, Bool, true, false, ◌&&◌, ◌||◌, not, List, [], ◌∷◌, ◌++◌, map, length, take, select,
  ltb, ◌==◌, if◌then◌else◌,
}
use bookmarks_api.Text.{Text, text_eq}
use bookmarks_api.Models.{Tag, Bookmark, Link, Db, Engine}
use bookmarks_api.Repository.Queries.{is_linked}

-- A row of `GROUP BY`, with its `COUNT(*)`.
pub record Group : Type 0 where
  pub name : Text
  pub count : ℕ

pub record Stats : Type 0 where
  pub total_bookmarks : ℕ
  pub total_tags : ℕ
  pub top_tags : List Group
  pub bookmarks_per_month : List Group

-- `WHERE user_id = :uid`
unfoldable pub rows_of : Db → ℕ → List Bookmark
rows_of db user_id = select (λ (b : Bookmark). b.user_id == user_id) db.bookmarks

-- The rows of the join for one tag: the user's bookmarks that carry it.
unfoldable pub tagged : Db → ℕ → Tag → List Bookmark
unfolding rows_of
tagged db user_id tag =
    select (λ (b : Bookmark). is_linked db.bookmark_tags b.id tag.id) (rows_of db user_id)

-- The groups of the tags that have a row in the join.
unfoldable pub tag_groups : Db → ℕ → List Tag → List Group
unfolding tagged
tag_groups db user_id [] = []
tag_groups db user_id (tag ∷ tags) =
    let rest = tag_groups db user_id tags in
    let n = length (tagged db user_id tag) in
    if ltb 0 n then record { name = tag.name; count = n } ∷ rest else rest

unfoldable pub insert_group : (Group → Group → Bool) → Group → List Group → List Group
insert_group before g [] = g ∷ []
insert_group before g (h ∷ hs) =
    let rest = insert_group before g hs in if before g h then g ∷ h ∷ hs else h ∷ rest

unfoldable pub sort_groups : (Group → Group → Bool) → List Group → List Group
unfolding insert_group
sort_groups before [] = []
sort_groups before (g ∷ gs) = insert_group before g (sort_groups before gs)

-- One more bookmark in the group of its month, which it opens if need be.
unfoldable pub add_month : Text → List Group → List Group
add_month month [] = record { name = month; count = 1 } ∷ []
add_month month (g ∷ gs) =
    let rest = add_month month gs in
    if text_eq g.name month then record g { count = suc g.count } ∷ gs else g ∷ rest

unfoldable pub month_groups : (ℕ → Text) → List Bookmark → List Group
unfolding add_month
month_groups month_of [] = []
month_groups month_of (b ∷ bs) = add_month (month_of b.created_at) (month_groups month_of bs)

module _ (engine : Engine) (month_of : ℕ → Text) where
  -- `ORDER BY count DESC, t.name ASC`
  unfoldable pub more_first : Group → Group → Bool
  more_first g h =
      ltb h.count g.count || (g.count == h.count && not (engine.text_before h.name g.name))

  -- `ORDER BY month ASC`
  unfoldable pub month_first : Group → Group → Bool
  month_first g h = not (engine.text_before h.name g.name)

  -- `get_stats`
  unfoldable pub get_stats : Db → ℕ → Stats
  unfolding tag_groups sort_groups more_first month_first month_groups rows_of
  get_stats db user_id =
      let groups = tag_groups db user_id db.tags in
      record {
        total_bookmarks = length (rows_of db user_id);
        total_tags = length groups;
        top_tags = take 10 (sort_groups more_first groups);
        bookmarks_per_month = sort_groups month_first (month_groups month_of (rows_of db user_id));
      }
