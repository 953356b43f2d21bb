-- ===== src/Routers/Stats.antt =====
-- app/routers/stats.py, with the service and the schemas it answers by. `month_of` stands for the SQL
-- function that writes the month of a time.
use bookmarks_api.Prelude.{ℕ, Option, List, map}
use bookmarks_api.Text.{Text}
use bookmarks_api.Models.{Db, Engine}
use bookmarks_api.Result.{Result, ok, ◌>>=◌}
use bookmarks_api.Security.{Jwt, TokenProvider}
use bookmarks_api.Authentication.{get_current_user}
use bookmarks_api.Repository.Stats
use bookmarks_api.Repository.Stats.{Group, Stats}

pub record TagCount : Type 0 where
  pub name : Text
  pub count : ℕ

pub record MonthCount : Type 0 where
  pub month : Text
  pub count : ℕ

pub record StatsResponse : Type 0 where
  pub total_bookmarks : ℕ
  pub total_tags : ℕ
  pub top_tags : List TagCount
  pub bookmarks_per_month : List MonthCount

unfoldable pub tag_count : Group → TagCount
tag_count g = record { name = g.name; count = g.count }

unfoldable pub month_count : Group → MonthCount
month_count g = record { month = g.name; count = g.count }

-- `StatsResponse(**stats)`
unfoldable pub stats_response : Stats → StatsResponse
unfolding tag_count month_count
stats_response stats = record {
  total_bookmarks = stats.total_bookmarks;
  total_tags = stats.total_tags;
  top_tags = map tag_count stats.top_tags;
  bookmarks_per_month = map month_count stats.bookmarks_per_month;
}

-- `get_stats`, behind `get_current_user`
unfoldable pub stats_route :
    Engine → (ℕ → Text) → Jwt → TokenProvider → ℕ → Db → Option Text → Result StatsResponse
unfolding stats_response
stats_route engine month_of jwt provider now db credentials =
    get_current_user jwt provider now db credentials >>= λ user.
    ok (stats_response (Stats.get_stats engine month_of db user.id))
