-- ===== src/Service/Bookmarks/Pages/Slices.antt =====
-- Slices of lists, and the rows below a cursor in a list with descending keys.
use bookmarks_api.Prelude.{
  ℕ, zero, suc, ◌+◌, ◌*◌, ◌≤◌, ◌<◌, ◌≡◌, refl, sym, ap, ◌∙◌, false, some, List, [], ◌∷◌, ◌++◌,
  arith, length, take, drop, ltb, select, All, All-take, ◌==◌, Bool-cases, inl, inr,
}
use bookmarks_api.Models.{Bookmark, has_id}
use bookmarks_api.Repository.Bookmarks.Rows.{ids, IsDistinct}
use bookmarks_api.Repository.Queries.Sorting.{below, IsDescending}
use bookmarks_api.Service.Bookmarks.{last_id, pages_for}

take_nil {ℓ} : {A : Type ℓ} (n : ℕ) → take {A = A} n [] ≡ []
take_nil zero = refl
take_nil (suc n) = refl

pub take-add {ℓ} :
    {A : Type ℓ} (m n : ℕ) (xs : List A) → take m xs ++ take n (drop m xs) ≡ take (m + n) xs
take-add zero n xs = ap (λ k. take k xs) (omega arith)
take-add (suc m) n [] = take_nil n ∙ sym (take_nil (suc m + n))
take-add (suc m) n (x ∷ xs) =
    let more : suc (m + n) ≡ suc m + n = omega arith in
    ap (◌∷◌ x) (take-add m n xs) ∙ ap (λ k. take k (x ∷ xs)) more

pub take_all {ℓ} : {A : Type ℓ} (n : ℕ) (xs : List A) → length xs ≤ n → take n xs ≡ xs
take_all zero [] h = refl
take_all zero (x ∷ xs) h = absurd (omega arith)
take_all (suc n) [] h = refl
take_all (suc n) (x ∷ xs) h = ap (◌∷◌ x) (take_all n xs (omega arith))

-- The pages are enough for the rows, and no page is empty.
pub pages_for_bounds :
    (total per_page : ℕ)
    → 0 < per_page
    → (total ≤ pages_for total per_page * per_page)
      × (pages_for total per_page * per_page < total + per_page)
unfolding pages_for
pages_for_bounds total per_page h = elim (Bool-cases (total == 0)) [
  | inl nothing ↦ rw nothing (ground arith)
  | inr some_rows ↦ rw some_rows (omega arith, omega arith)
]

above-has_id :
    (i : ℕ) (bs : List Bookmark) → All (λ (c : Bookmark). c.id < i) bs → has_id i (ids bs) ≡ false
unfolding has_id
above-has_id i [] a = refl
above-has_id i (b ∷ bs) (h, a) = ground (arith, above-has_id i bs a)

pub descending-IsDistinct : (bs : List Bookmark) → IsDescending bs → IsDistinct (ids bs)
descending-IsDistinct [] d = tt
descending-IsDistinct (b ∷ bs) (a, d) = (above-has_id b.id bs a, descending-IsDistinct bs d)

select-All :
    (i cursor : ℕ) (bs : List Bookmark)
    → All (λ (c : Bookmark). c.id < i) bs
    → All (λ (c : Bookmark). c.id < i) (below cursor bs)
unfolding select
select-All i cursor [] a = tt
select-All i cursor (b ∷ bs) (h, a) = ground (arith, select-All i cursor bs a)

pub IsDescending-below :
    (cursor : ℕ) (bs : List Bookmark) → IsDescending bs → IsDescending (below cursor bs)
unfolding select
IsDescending-below cursor [] d = tt
IsDescending-below cursor (b ∷ bs) (a, d) = elim (Bool-cases (ltb b.id cursor)) [
  | inl low ↦ rw low (select-All b.id cursor bs a, IsDescending-below cursor bs d)
  | inr high ↦ rw high (IsDescending-below cursor bs d)
]

-- A lower cursor makes a higher one redundant.
pub below-below :
    (low high : ℕ) (bs : List Bookmark) → low ≤ high → below low (below high bs) ≡ below low bs
unfolding select
below-below low high [] h = refl
below-below low high (b ∷ bs) h = ground (arith, below-below low high bs h)

below_of_All : (i : ℕ) (bs : List Bookmark) → All (λ (c : Bookmark). c.id < i) bs → below i bs ≡ bs
unfolding select
below_of_All i [] a = refl
below_of_All i (b ∷ bs) (h, a) = ground (arith, below_of_All i bs a)

-- A page that is not empty ends in a key, which is below whatever all rows are below.
pub last_id-take :
    (n : ℕ) (b : Bookmark) (bs : List Bookmark)
    → IsDescending (b ∷ bs)
    → (i : ℕ) × (last_id (take (suc n) (b ∷ bs)) ≡ some i) × (i ≤ b.id)
unfolding last_id
last_id-take zero b bs d = (b.id, refl, omega arith)
last_id-take (suc n) b [] d = (b.id, refl, omega arith)
last_id-take (suc n) b (c ∷ bs) (a, d) =
    let (i, e, le) = last_id-take n c bs d in (i, e, omega arith)

-- The rows below the last key of a page are the rest of the list.
pub below-last_id :
    (n i : ℕ) (bs : List Bookmark)
    → IsDescending bs
    → last_id (take (suc n) bs) ≡ some i
    → below i bs ≡ drop (suc n) bs
unfolding select last_id
below-last_id n i [] d h = refl
below-last_id zero i (b ∷ bs) (a, d) h = ground (arith, below_of_All b.id bs a)
below-last_id (suc n) i (b ∷ []) d h = ground arith
below-last_id (suc n) i (b ∷ c ∷ bs) (a, d) h =
    ground (arith, last_id-take n c bs d, below-last_id n i (c ∷ bs) d h)

pub below-All : (i : ℕ) (bs : List Bookmark) → All (λ (c : Bookmark). c.id < i) (below i bs)
unfolding select
below-All i [] = tt
below-All i (b ∷ bs) = ground (arith, below-All i bs)

pub take-take {ℓ} : {A : Type ℓ} (n : ℕ) (xs : List A) → take n (take (suc n) xs) ≡ take n xs
take-take zero xs = refl
take-take (suc n) [] = refl
take-take (suc n) (x ∷ xs) = ap (◌∷◌ x) (take-take n xs)

pub IsDescending-take : (n : ℕ) (bs : List Bookmark) → IsDescending bs → IsDescending (take n bs)
IsDescending-take zero bs d = tt
IsDescending-take (suc n) [] d = tt
IsDescending-take (suc n) (b ∷ bs) (a, d) = (All-take _ n bs a, IsDescending-take n bs d)
