-- ===== src/Repository/Bookmarks/Rows.antt =====
-- On the guarded UPDATE of app/repositories/bookmark/repository.py, row by row.
use bookmarks_api.Prelude.{
  ℕ, ◌≡◌, ◌≢◌, refl, subst, Bool, true, false, ◌&&◌, none, some, List, [], ◌∷◌, map, arith, find,
  ◌==◌, Bool-cases, inl, inr,
}
use mathlib.Core.Option.{some-injective}
use bookmarks_api.Models.{Bookmark, has_id}
use bookmarks_api.Repository.Bookmarks.{is_current, update_row, update_rows}

abbrev pub ids : List Bookmark → List ℕ
ids = map (λ (b : Bookmark). b.id)

-- No key occurs twice.
abbrev pub IsDistinct : List ℕ → Type 0
IsDistinct [] = Unit
IsDistinct (i ∷ is) = (has_id i is ≡ false) × IsDistinct is

-- The test of `get_owned`.
abbrev pub owned : ℕ → ℕ → Bookmark → Bool
owned user_id bookmark_id b = b.id == bookmark_id && b.user_id == user_id

pub find_holds {ℓ} :
    {A : Type ℓ} (p : A → Bool) (xs : List A) {x : A} → find p xs ≡ some x → p x ≡ true
unfolding find
find_holds p [] {x} h = cc
find_holds p (y ∷ ys) {x} h = elim (Bool-cases (p y)) [
  | inl here ↦ subst (λ z. p z ≡ true) (some-injective y x (rw here at h)) here
  | inr past ↦ find_holds p ys (rw past at h)
]

pub has_id-current :
    (loaded : Bookmark) (rows : List Bookmark) (row : Bookmark)
    → find (is_current loaded) rows ≡ some row
    → has_id loaded.id (ids rows) ≡ true
unfolding find has_id
has_id-current loaded [] row h = cc
has_id-current loaded (r ∷ rows) row h = ground (arith, has_id-current loaded rows row)

module _ (now : ℕ) (loaded assigned : Bookmark) where
  pub ids-update_rows :
      (rows : List Bookmark) → ids (update_rows now loaded assigned rows) ≡ ids rows
  unfolding update_rows
  ids-update_rows [] = refl
  ids-update_rows (row ∷ rows) = ground (arith, ids-update_rows rows)

  -- A row with another key is left alone.
  pub find-update_rows_other :
      (user_id bookmark_id : ℕ) (rows : List Bookmark)
      → bookmark_id ≢ loaded.id
      → find (owned user_id bookmark_id) (update_rows now loaded assigned rows)
        ≡ find (owned user_id bookmark_id) rows
  unfolding find update_rows
  find-update_rows_other user_id bookmark_id [] h = refl
  find-update_rows_other user_id bookmark_id (row ∷ rows) h =
      ground (arith, find-update_rows_other user_id bookmark_id rows h)

  -- The row that the guard finds is replaced by its new version.
  pub find-update_rows_self :
      (rows : List Bookmark) (row : Bookmark)
      → IsDistinct (ids rows)
      → find (is_current loaded) rows ≡ some row
      → find (owned row.user_id loaded.id) (update_rows now loaded assigned rows)
        ≡ some (update_row now loaded assigned row)
  unfolding find update_rows
  find-update_rows_self [] row d h = cc
  find-update_rows_self (r ∷ rows) row (fresh, d) h =
      ground (arith, find-update_rows_self rows row d, has_id-current loaded rows row)

  -- Afterwards no row is at the version that was loaded.
  not_current_of_other :
      (rows : List Bookmark)
      → has_id loaded.id (ids rows) ≡ false
      → find (is_current loaded) (update_rows now loaded assigned rows) ≡ none
  unfolding find update_rows has_id
  not_current_of_other [] h = refl
  not_current_of_other (r ∷ rows) h = ground (arith, not_current_of_other rows)

  pub find-update_rows_stale :
      (rows : List Bookmark)
      → IsDistinct (ids rows)
      → find (is_current loaded) (update_rows now loaded assigned rows) ≡ none
  unfolding find update_rows
  find-update_rows_stale [] d = refl
  find-update_rows_stale (r ∷ rows) (fresh, d) =
      ground (arith, find-update_rows_stale rows d, not_current_of_other rows)

has_id_of_owned :
    (user_id bookmark_id : ℕ) (rows : List Bookmark) (b : Bookmark)
    → find (owned user_id bookmark_id) rows ≡ some b
    → has_id bookmark_id (ids rows) ≡ true
unfolding find has_id
has_id_of_owned user_id bookmark_id [] b h = cc
has_id_of_owned user_id bookmark_id (r ∷ rows) b h =
    ground (arith, has_id_of_owned user_id bookmark_id rows b)

-- The row that a user is shown is the one that the guard of a commit finds.
pub current_of_owned :
    (user_id bookmark_id : ℕ) (rows : List Bookmark) (b : Bookmark)
    → IsDistinct (ids rows)
    → find (owned user_id bookmark_id) rows ≡ some b
    → find (is_current b) rows ≡ some b
unfolding find
current_of_owned user_id bookmark_id [] b d h = cc
current_of_owned user_id bookmark_id (r ∷ rows) b (fresh, d) h = ground (
  arith,
  current_of_owned user_id bookmark_id rows b d,
  has_id_of_owned user_id bookmark_id rows b,
  find_holds (owned user_id bookmark_id) (r ∷ rows) h,
)
