-- ===== src/Repository/Stats/Ranking.antt =====
-- On the tags that `get_stats` of app/repositories/stats/repository.py shows: `GROUP BY`, the order
-- by count and the limit.
use bookmarks_api.Prelude.{
  ℕ, zero, suc, ◌≤◌, ◌<◌, ◌≡◌, refl, ◌⊎◌, inl, inr, Bool, true, false, List, [], ◌∷◌, arith, All,
  All-map, All-take, length, take, ltb, ltb→lt, sym, subst, ◌∙◌, if_cases,
}
use bookmarks_api.Text.{Text}
use bookmarks_api.Models.{Tag, Db, Engine}
use bookmarks_api.Repository.Stats.Counts.{carriers, length-carriers}
use bookmarks_api.Repository.Stats.{
  Group, rows_of, tagged, tag_groups, insert_group, sort_groups, more_first,
}

-- No group is above one with a larger count.
abbrev pub IsRanked : List Group → Type 0
IsRanked [] = Unit
IsRanked (g ∷ gs) = All (λ (h : Group). h.count ≤ g.count) gs × IsRanked gs

-- A tag of this name is among the groups with this count.
abbrev pub IsListed : Text → ℕ → List Group → Type 0
IsListed name n [] = ⊥
IsListed name n (g ∷ gs) = ((g.name ≡ name) × (g.count ≡ n)) ⊎ IsListed name n gs

module _ (before : Group → Group → Bool) where
  All-insert_group :
      (P : Group → Type 0) (g : Group) (gs : List Group)
      → P g
      → All P gs
      → All P (insert_group before g gs)
  unfolding insert_group
  All-insert_group P g [] p h = (p, tt)
  All-insert_group P g (k ∷ gs) p (q, h) =
      if_cases (All P) (before g k) (λ e. (p, (q, h))) (λ e. (q, All-insert_group P g gs p h))

  pub All-sort_groups :
      (P : Group → Type 0) (gs : List Group) → All P gs → All P (sort_groups before gs)
  unfolding sort_groups
  All-sort_groups P [] h = tt
  All-sort_groups P (g ∷ gs) (p, h) =
      All-insert_group P g (sort_groups before gs) p (All-sort_groups P gs h)

  module _ (name : Text) (n : ℕ) where
    insert_group-IsListed :
        (g : Group) (gs : List Group)
        → IsListed name n (g ∷ gs)
        → IsListed name n (insert_group before g gs)
    unfolding insert_group
    insert_group-IsListed g [] l = l
    insert_group-IsListed g (k ∷ gs) l =
        if_cases (IsListed name n) (before g k) (λ e. l)
          (λ e. elim l [
            | inl here ↦ inr (insert_group-IsListed g gs (inl here))
            | inr (inl there) ↦ inl there
            | inr (inr below) ↦ inr (insert_group-IsListed g gs (inr below))
          ])

    pub sort_groups-IsListed :
        (gs : List Group) → IsListed name n gs → IsListed name n (sort_groups before gs)
    unfolding sort_groups
    sort_groups-IsListed [] l = elim l [ ]
    sort_groups-IsListed (g ∷ gs) (inl here) =
        insert_group-IsListed g (sort_groups before gs) (inl here)
    sort_groups-IsListed (g ∷ gs) (inr l) =
        insert_group-IsListed g (sort_groups before gs) (inr (sort_groups-IsListed gs l))

-- The count of a group that is listed is bounded as the others are.
IsListed-le :
    (m n : ℕ) (name : Text) (gs : List Group)
    → All (λ (h : Group). h.count ≤ m) gs
    → IsListed name n gs
    → n ≤ m
IsListed-le m n name [] h l = elim l [ ]
IsListed-le m n name (g ∷ gs) (b, h) (inl (named, counted)) = omega arith
IsListed-le m n name (g ∷ gs) (b, h) (inr l) = IsListed-le m n name gs h l

-- A group of a ranked list is among the first ones, or all of these have as large a count.
pub take-IsListed :
    (n : ℕ) (name : Text) (k : ℕ) (gs : List Group)
    → IsRanked gs
    → IsListed name n gs
    → IsListed name n (take k gs) ⊎ All (λ (g : Group). n ≤ g.count) (take k gs)
take-IsListed n name zero gs r l = inr tt
take-IsListed n name (suc k) [] r l = elim l [ ]
take-IsListed n name (suc k) (g ∷ gs) (above, r) (inl here) = inl (inl here)
take-IsListed n name (suc k) (g ∷ gs) (above, r) (inr l) = elim (take-IsListed n name k gs r l) [
  | inl shown ↦ inl (inr shown)
  | inr bounded ↦ inr (IsListed-le g.count n name gs above l, bounded)
]

pub take-IsRanked : (k : ℕ) (gs : List Group) → IsRanked gs → IsRanked (take k gs)
take-IsRanked zero gs r = tt
take-IsRanked (suc k) [] r = tt
take-IsRanked (suc k) (g ∷ gs) (above, r) =
    (All-take (λ (h : Group). h.count ≤ g.count) k gs above, take-IsRanked k gs r)

raise_bound : (a b c : ℕ) → a ≤ b → b ≤ c → a ≤ c
raise_bound a b c h k = omega arith

module _ (engine : Engine) (month_of : ℕ → Text) where
  before-le : (g h : Group) → more_first engine month_of g h ≡ true → h.count ≤ g.count
  unfolding more_first
  before-le g h e = ground arith

  not_before-le : (g h : Group) → more_first engine month_of g h ≡ false → g.count ≤ h.count
  unfolding more_first
  not_before-le g h e = ground arith

  insert_group-IsRanked :
      (g : Group) (gs : List Group)
      → IsRanked gs
      → IsRanked (insert_group (more_first engine month_of) g gs)
  unfolding insert_group
  insert_group-IsRanked g [] r = (tt, tt)
  insert_group-IsRanked g (k ∷ gs) (above, r) =
      if_cases IsRanked (more_first engine month_of g k)
        (λ e. (
          (
            before-le g k e,
            All-map (λ h c. raise_bound h.count k.count g.count c (before-le g k e)) gs above,
          ),
          (above, r),
        ))
        (λ e. (
          All-insert_group (more_first engine month_of) (λ (h : Group). h.count ≤ k.count) g gs
              (not_before-le g k e) above,
          insert_group-IsRanked g gs r,
        ))

  pub sort_groups-IsRanked :
      (gs : List Group) → IsRanked (sort_groups (more_first engine month_of) gs)
  unfolding sort_groups
  sort_groups-IsRanked [] = tt
  sort_groups-IsRanked (g ∷ gs) =
      insert_group-IsRanked g (sort_groups (more_first engine month_of) gs)
        (sort_groups-IsRanked gs)

no_rows : (n : ℕ) → ltb 0 n ≡ false → n ≡ 0
no_rows n h = ground arith

module _ (db : Db) (user_id : ℕ) where
  -- The number of the user's bookmarks that carry the tag.
  abbrev pub uses : Tag → ℕ
  uses t = carriers user_id t.id db.bookmark_tags db.bookmarks

  pub length-tagged : (t : Tag) → length (tagged db user_id t) ≡ uses t
  unfolding tagged rows_of
  length-tagged t = length-carriers user_id t.id db.bookmark_tags db.bookmarks

  -- The group of a tag that the user has.
  abbrev pub IsGroup : List Tag → Group → Type 0
  IsGroup [] g = ⊥
  IsGroup (t ∷ ts) g = ((g.name ≡ t.name) × ((g.count ≡ uses t) × (0 < uses t))) ⊎ IsGroup ts g

  pub tag_groups-IsGroup : (tags : List Tag) → All (IsGroup tags) (tag_groups db user_id tags)
  unfolding tag_groups
  tag_groups-IsGroup [] = tt
  tag_groups-IsGroup (t ∷ ts) =
      let rest = All-map (λ g h. inr h) (tag_groups db user_id ts) (tag_groups-IsGroup ts) in
      if_cases (All (IsGroup (t ∷ ts))) (ltb 0 (length (tagged db user_id t)))
        (λ e. (
          inl (refl, (length-tagged t, subst (λ n. 0 < n) (length-tagged t) (ltb→lt 0 _ e))),
          rest,
        ))
        (λ e. rest)

  -- A tag that no bookmark of the user carries, or one with a group.
  abbrev pub HasGroup : List Group → Tag → Type 0
  HasGroup gs t = (uses t ≡ 0) ⊎ IsListed t.name (uses t) gs

  pub tag_groups-HasGroup : (tags : List Tag) → All (HasGroup (tag_groups db user_id tags)) tags
  unfolding tag_groups
  tag_groups-HasGroup [] = tt
  tag_groups-HasGroup (t ∷ ts) =
      if_cases (λ gs. All (HasGroup gs) (t ∷ ts)) (ltb 0 (length (tagged db user_id t)))
        (λ e. (
          inr (inl (refl, length-tagged t)),
          All-map (λ u h. elim h [ inl z ↦ inl z | inr l ↦ inr (inr l) ]) ts
              (tag_groups-HasGroup ts),
        ))
        (λ e. (
          inl (sym (length-tagged t) ∙ no_rows (length (tagged db user_id t)) e),
          tag_groups-HasGroup ts,
        ))
