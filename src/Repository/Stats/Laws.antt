-- ===== src/Repository/Stats/Laws.antt =====
-- On the counts of app/repositories/stats/repository.py.
use bookmarks_api.Prelude.{
  ℕ, suc, ◌+◌, min, ◌≡◌, refl, ap, ◌∙◌, Bool, List, [], ◌∷◌, arith, length, length-take,
}
use bookmarks_api.Text.{Text}
use bookmarks_api.Models.{Bookmark, Db, Engine}
use bookmarks_api.Repository.Stats.{
  Group, rows_of, tag_groups, insert_group, sort_groups, add_month, month_groups, month_first,
  more_first, get_stats,
}

abbrev pub total : List Group → ℕ
total [] = 0
total (g ∷ gs) = g.count + total gs

total-insert_group :
    (before : Group → Group → Bool) (g : Group) (gs : List Group)
    → total (insert_group before g gs) ≡ g.count + total gs
unfolding insert_group
total-insert_group before g [] = refl
total-insert_group before g (h ∷ hs) = ground (arith, total-insert_group before g hs)

total-sort_groups :
    (before : Group → Group → Bool) (gs : List Group) → total (sort_groups before gs) ≡ total gs
unfolding sort_groups
total-sort_groups before [] = refl
total-sort_groups before (g ∷ gs) =
    total-insert_group before g (sort_groups before gs)
    ∙ ap (λ n. g.count + n) (total-sort_groups before gs)

length-insert_group :
    (before : Group → Group → Bool) (g : Group) (gs : List Group)
    → length (insert_group before g gs) ≡ suc (length gs)
unfolding insert_group
length-insert_group before g [] = refl
length-insert_group before g (h ∷ hs) = ground (arith, length-insert_group before g hs)

length-sort_groups :
    (before : Group → Group → Bool) (gs : List Group) → length (sort_groups before gs) ≡ length gs
unfolding sort_groups
length-sort_groups before [] = refl
length-sort_groups before (g ∷ gs) =
    length-insert_group before g (sort_groups before gs) ∙ ap suc (length-sort_groups before gs)

total-add_month : (month : Text) (gs : List Group) → total (add_month month gs) ≡ suc (total gs)
unfolding add_month
total-add_month month [] = refl
total-add_month month (g ∷ gs) = ground (arith, total-add_month month gs)

total-month_groups :
    (month_of : ℕ → Text) (bs : List Bookmark) → total (month_groups month_of bs) ≡ length bs
unfolding month_groups
total-month_groups month_of [] = refl
total-month_groups month_of (b ∷ bs) =
    total-add_month (month_of b.created_at) (month_groups month_of bs)
    ∙ ap suc (total-month_groups month_of bs)

pub get_stats-total :
    (engine : Engine) (month_of : ℕ → Text) (db : Db) (user_id : ℕ)
    → (total (get_stats engine month_of db user_id).bookmarks_per_month
        ≡ (get_stats engine month_of db user_id).total_bookmarks)
      × (length (get_stats engine month_of db user_id).top_tags
          ≡ min 10 (get_stats engine month_of db user_id).total_tags)
unfolding get_stats
get_stats-total engine month_of db user_id = (
  total-sort_groups (month_first engine month_of) (month_groups month_of (rows_of db user_id))
      ∙ total-month_groups month_of (rows_of db user_id),
  length-take 10 (sort_groups (more_first engine month_of) (tag_groups db user_id db.tags))
      ∙ ap (min 10)
          (length-sort_groups (more_first engine month_of) (tag_groups db user_id db.tags)),
)
