-- ===== src/Repository/Queries/Sorting.antt =====
-- On the ORDER BY clauses of app/repositories/bookmark/repository.py.
use bookmarks_api.Prelude.{
  ℕ, zero, suc, ◌<◌, ◌≡◌, refl, sym, ap, ◌∙◌, Bool, true, false, not, List, [], ◌∷◌, arith, select,
  All, All-map, length, take, drop, ltb, leb, ◌==◌, if◌then◌else◌, Bool-cases, inl, inr,
}
use bookmarks_api.Models.{Bookmark, has_id}
use bookmarks_api.Repository.Queries.{unique, insert_row, order_by, id_desc}
use bookmarks_api.Repository.Bookmarks.Rows.{ids, IsDistinct}

module _ (before : Bookmark → Bookmark → Bool) where
  has_id-insert_row :
      (i : ℕ) (b : Bookmark) (cs : List Bookmark)
      → has_id i (ids (insert_row before b cs)) ≡ (if b.id == i then true else has_id i (ids cs))
  unfolding insert_row has_id
  has_id-insert_row i b [] = refl
  has_id-insert_row i b (c ∷ cs) = ground (arith, has_id-insert_row i b cs)

  pub has_id-order_by :
      (i : ℕ) (bs : List Bookmark) → has_id i (ids (order_by before bs)) ≡ has_id i (ids bs)
  unfolding order_by has_id
  has_id-order_by i [] = refl
  has_id-order_by i (b ∷ bs) =
      has_id-insert_row i b (order_by before bs)
      ∙ ap (λ rest. if b.id == i then true else rest) (has_id-order_by i bs)

  insert_row-IsDistinct :
      (b : Bookmark) (cs : List Bookmark)
      → has_id b.id (ids cs) ≡ false
      → IsDistinct (ids cs)
      → IsDistinct (ids (insert_row before b cs))
  unfolding insert_row has_id
  insert_row-IsDistinct b [] h d = (refl, tt)
  insert_row-IsDistinct b (c ∷ cs) h (fresh, d) =
      ground (arith, insert_row-IsDistinct b cs, has_id-insert_row c.id b cs)

  pub order_by-IsDistinct :
      (bs : List Bookmark) → IsDistinct (ids bs) → IsDistinct (ids (order_by before bs))
  unfolding order_by
  order_by-IsDistinct [] d = tt
  order_by-IsDistinct (b ∷ bs) (fresh, d) =
      insert_row-IsDistinct b (order_by before bs) (has_id-order_by b.id bs ∙ fresh)
        (order_by-IsDistinct bs d)

  length-insert_row :
      (b : Bookmark) (cs : List Bookmark) → length (insert_row before b cs) ≡ suc (length cs)
  unfolding insert_row
  length-insert_row b [] = refl
  length-insert_row b (c ∷ cs) = ground (arith, length-insert_row b cs)

  pub length-order_by : (bs : List Bookmark) → length (order_by before bs) ≡ length bs
  unfolding order_by
  length-order_by [] = refl
  length-order_by (b ∷ bs) = length-insert_row b (order_by before bs) ∙ ap suc (length-order_by bs)

select_absent :
    (i : ℕ) (bs : List Bookmark)
    → has_id i (ids bs) ≡ false
    → select (λ (c : Bookmark). not (c.id == i)) bs ≡ bs
unfolding select has_id
select_absent i [] h = refl
select_absent i (b ∷ bs) h = ground (arith, select_absent i bs)

-- Distinct rows are their own distinct rows.
pub unique_lem : (bs : List Bookmark) → IsDistinct (ids bs) → unique bs ≡ bs
unfolding unique
unique_lem [] d = refl
unique_lem (b ∷ bs) (fresh, d) = rw (unique_lem bs d, select_absent b.id bs fresh)

has_id-take :
    (i n : ℕ) (bs : List Bookmark) → has_id i (ids bs) ≡ false → has_id i (ids (take n bs)) ≡ false
unfolding has_id
has_id-take i zero bs h = refl
has_id-take i (suc n) [] h = refl
has_id-take i (suc n) (b ∷ bs) h = ground (arith, has_id-take i n bs)

pub take-IsDistinct :
    (n : ℕ) (bs : List Bookmark) → IsDistinct (ids bs) → IsDistinct (ids (take n bs))
take-IsDistinct zero bs d = tt
take-IsDistinct (suc n) [] d = tt
take-IsDistinct (suc n) (b ∷ bs) (fresh, d) = (has_id-take b.id n bs fresh, take-IsDistinct n bs d)

pub drop-IsDistinct :
    (n : ℕ) (bs : List Bookmark) → IsDistinct (ids bs) → IsDistinct (ids (drop n bs))
drop-IsDistinct zero bs d = d
drop-IsDistinct (suc n) [] d = tt
drop-IsDistinct (suc n) (b ∷ bs) (fresh, d) = drop-IsDistinct n bs d

-- Strictly descending keys.
abbrev pub IsDescending : List Bookmark → Type 0
IsDescending [] = Unit
IsDescending (b ∷ bs) = All (λ (c : Bookmark). c.id < b.id) bs × IsDescending bs

-- The rows below a cursor.
abbrev pub below : ℕ → List Bookmark → List Bookmark
below cursor = select (λ (b : Bookmark). ltb b.id cursor)

insert_row-below :
    (cursor : ℕ) (b : Bookmark) (cs : List Bookmark)
    → below cursor (insert_row id_desc b cs)
      ≡ (if ltb b.id cursor then insert_row id_desc b (below cursor cs) else below cursor cs)
unfolding select insert_row
insert_row-below cursor b [] = refl
insert_row-below cursor b (c ∷ cs) = ground (arith, insert_row-below cursor b cs)

-- The rows below a cursor may be selected before or after sorting.
pub order_by-below :
    (cursor : ℕ) (bs : List Bookmark)
    → order_by id_desc (below cursor bs) ≡ below cursor (order_by id_desc bs)
unfolding order_by select
order_by-below cursor [] = refl
order_by-below cursor (b ∷ bs) =
    let sorted = order_by id_desc bs in
    let inserted = insert_row-below cursor b sorted in
    elim (Bool-cases (ltb b.id cursor)) [
      | inl low ↦
          rw low (ap (insert_row id_desc b) (order_by-below cursor bs) ∙ sym (rw low at inserted))
      | inr high ↦ rw high (order_by-below cursor bs ∙ sym (rw high at inserted))
    ]

insert_row-All :
    (i : ℕ) (b : Bookmark) (cs : List Bookmark)
    → b.id < i
    → All (λ (c : Bookmark). c.id < i) cs
    → All (λ (c : Bookmark). c.id < i) (insert_row id_desc b cs)
unfolding insert_row
insert_row-All i b [] h a = (h, tt)
insert_row-All i b (c ∷ cs) h (p, a) = ground (arith, insert_row-All i b cs h a)

lt_of : {i j k : ℕ} → j < k → i < j → i < k
lt_of h g = omega arith

insert_row-IsDescending :
    (b : Bookmark) (cs : List Bookmark)
    → has_id b.id (ids cs) ≡ false
    → IsDescending cs
    → IsDescending (insert_row id_desc b cs)
unfolding insert_row has_id
insert_row-IsDescending b [] fresh d = (tt, tt)
insert_row-IsDescending b (c ∷ cs) fresh (a, d) = elim (Bool-cases (leb c.id b.id)) [
  | inl after ↦
      let lower : c.id < b.id = ground arith in
      rw after ((lower, All-map (λ (x : Bookmark) (h : x.id < c.id). lt_of lower h) cs a), (a, d))
  | inr earlier ↦
      rw earlier
        (insert_row-All c.id b cs (ground arith) a, insert_row-IsDescending b cs (ground arith) d)
]

-- Sorted by key, distinct rows are strictly descending.
pub order_by-IsDescending :
    (bs : List Bookmark) → IsDistinct (ids bs) → IsDescending (order_by id_desc bs)
unfolding order_by
order_by-IsDescending [] d = tt
order_by-IsDescending (b ∷ bs) (fresh, d) =
    insert_row-IsDescending b (order_by id_desc bs) (has_id-order_by id_desc b.id bs ∙ fresh)
      (order_by-IsDescending bs d)
