-- ===== src/Repository/Stats/Report.antt =====
-- What `get_stats` of app/repositories/stats/repository.py reports of a user's bookmarks.
use bookmarks_api.Prelude.{ℕ, ◌≤◌, min, ◌≡◌, ◌⊎◌, List, All, length, select, ltb}
use bookmarks_api.Text.{Text}
use bookmarks_api.Models.{Tag, Db, Engine}
use bookmarks_api.Repository.Stats.{Group, Stats, tag_groups, sort_groups, more_first}
use bookmarks_api.Repository.Stats.Laws.{total}
use bookmarks_api.Repository.Stats.Counts.{owns}
use bookmarks_api.Repository.Stats.Ranking.{IsRanked, IsListed, uses, IsGroup}

module _ (db : Db) (user_id : ℕ) where
  pub record Report (stats : Stats) : Type 0 where
    pub bookmarks : stats.total_bookmarks ≡ owns user_id db.bookmarks
    pub months : total stats.bookmarks_per_month ≡ stats.total_bookmarks
    pub tags : stats.total_tags ≡ length (select (λ (t : Tag). ltb 0 (uses db user_id t)) db.tags)
    pub shown : length stats.top_tags ≡ min 10 stats.total_tags
    pub counts : All (IsGroup db user_id db.tags) stats.top_tags
    pub ranked : IsRanked stats.top_tags
    pub others :
        All
          (λ (t : Tag).
            IsListed t.name (uses db user_id t) stats.top_tags
            ⊎ All (λ (g : Group). uses db user_id t ≤ g.count) stats.top_tags)
          db.tags

  module _ (engine : Engine) (month_of : ℕ → Text) where
    abbrev ranking : List Group
    ranking = sort_groups (more_first engine month_of) (tag_groups db user_id db.tags)
