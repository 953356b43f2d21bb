-- ===== src/Repository/Queries/Joins.antt =====
-- On `_apply_filters` of app/repositories/bookmark/repository.py: the rows of the join by tag.
use bookmarks_api.Prelude.{
  ℕ, ◌≡◌, refl, subst, Bool, true, false, ◌&&◌, Option, none, some, List, [], ◌∷◌, ◌++◌, map, arith,
  select, ◌==◌, Bool-cases, inl, inr,
}
use bookmarks_api.Text.{Text, text_eq, text_eq_iff}
use bookmarks_api.Text.Casing.{Casing}
use bookmarks_api.Tags.{member}
use bookmarks_api.Models.{Tag, Bookmark, Db, Engine, has_id}
use bookmarks_api.Repository.Tags.Laws.{names_of}
use bookmarks_api.Repository.Queries.{
  BookmarkFilters, given, row_ok, join_rows, filter_rows, apply_filters,
}
use bookmarks_api.Repository.Bookmarks.Rows.{ids, IsDistinct}

-- No two tags share a name, as the unique index on `name` has it.
abbrev pub HasNames : List Tag → Type 0
HasNames [] = Unit
HasNames (t ∷ ts) = (member t.name (names_of ts) ≡ false) × HasNames ts

no_match :
    (p : Tag → Bool) (name : Text) (tags : List Tag)
    → member name (names_of tags) ≡ false
    → select (λ (t : Tag). p t && text_eq t.name name) tags ≡ []
unfolding select member
no_match p name [] h = refl
no_match p name (t ∷ ts) h = ground (arith, no_match p name ts)

-- The rows of one bookmark: none, or the bookmark once.
abbrev pub AtMost : Bookmark → List Bookmark → Type 0
AtMost b [] = Unit
AtMost b (c ∷ []) = c ≡ b
AtMost b (c ∷ d ∷ bs) = ⊥

join-AtMost :
    (p : Tag → Bool) (name : Text) (b : Bookmark) (tags : List Tag)
    → HasNames tags
    → AtMost b (map (λ (t : Tag). b) (select (λ (t : Tag). p t && text_eq t.name name) tags))
unfolding select
join-AtMost p name b [] d = tt
join-AtMost p name b (t ∷ ts) (fresh, d) = elim (Bool-cases (p t && text_eq t.name name)) [
  | inl hit ↦
      let same : text_eq t.name name ≡ true = ground arith in
      let absent : member name (names_of ts) ≡ false =
        subst (λ n. member n (names_of ts) ≡ false) ((text_eq_iff t.name name).0 same) fresh in
      rw (hit, no_match p name ts absent)
  | inr missed ↦ rw missed (join-AtMost p name b ts d)
]

module _ (engine : Engine) (casing : Casing) where
  join_rows-AtMost :
      (db : Db) (tag : Option Text) (b : Bookmark)
      → HasNames db.tags
      → AtMost b (join_rows engine casing db tag b)
  unfolding join_rows
  join_rows-AtMost db none b d = refl
  join_rows-AtMost db (some tag) b d = join-AtMost _ _ b db.tags d

  add-IsDistinct :
      (b : Bookmark) (rows rest : List Bookmark)
      → AtMost b rows
      → has_id b.id (ids rest) ≡ false
      → IsDistinct (ids rest)
      → IsDistinct (ids (rows ++ rest))
  add-IsDistinct b [] rest h fresh d = d
  add-IsDistinct b (c ∷ []) rest h fresh d = rw h (fresh, d)
  add-IsDistinct b (c ∷ e ∷ bs) rest h fresh d = absurd h

  has_id-add :
      (i : ℕ) (b : Bookmark) (rows rest : List Bookmark)
      → AtMost b rows
      → (b.id == i) ≡ false
      → has_id i (ids rest) ≡ false
      → has_id i (ids (rows ++ rest)) ≡ false
  unfolding has_id
  has_id-add i b [] rest h ne fresh = fresh
  has_id-add i b (c ∷ []) rest h ne fresh = rw (h, ne) fresh
  has_id-add i b (c ∷ e ∷ bs) rest h ne fresh = absurd h

  has_id-filter_rows :
      (db : Db) (user_id : ℕ) (filters : BookmarkFilters) (i : ℕ) (bs : List Bookmark)
      → HasNames db.tags
      → has_id i (ids bs) ≡ false
      → has_id i (ids (filter_rows engine casing db user_id filters bs)) ≡ false
  unfolding filter_rows has_id
  has_id-filter_rows db user_id filters i [] d h = refl
  has_id-filter_rows db user_id filters i (b ∷ bs) d h = ground (
    arith,
    has_id-filter_rows db user_id filters i bs d,
    has_id-add i b (join_rows engine casing db (given filters.tag) b)
        (filter_rows engine casing db user_id filters bs)
        (join_rows-AtMost db (given filters.tag) b d),
  )

  filter_rows-IsDistinct :
      (db : Db) (user_id : ℕ) (filters : BookmarkFilters) (bs : List Bookmark)
      → HasNames db.tags
      → IsDistinct (ids bs)
      → IsDistinct (ids (filter_rows engine casing db user_id filters bs))
  unfolding filter_rows
  filter_rows-IsDistinct db user_id filters [] d h = tt
  filter_rows-IsDistinct db user_id filters (b ∷ bs) d (fresh, h) =
      elim (Bool-cases (row_ok engine casing user_id filters b)) [
        | inl kept ↦ rw kept (
            add-IsDistinct b (join_rows engine casing db (given filters.tag) b) _
              (join_rows-AtMost db (given filters.tag) b d)
              (has_id-filter_rows db user_id filters b.id bs d fresh)
              (filter_rows-IsDistinct db user_id filters bs d h))
        | inr dropped ↦ rw dropped (filter_rows-IsDistinct db user_id filters bs d h)
      ]

  -- The rows of a filtered query are distinct, also of one that joins the tags.
  pub apply_filters-IsDistinct :
      (db : Db) (user_id : ℕ) (filters : BookmarkFilters)
      → HasNames db.tags
      → IsDistinct (ids db.bookmarks)
      → IsDistinct (ids (apply_filters engine casing db user_id filters))
  unfolding apply_filters
  apply_filters-IsDistinct db user_id filters =
      filter_rows-IsDistinct db user_id filters db.bookmarks
