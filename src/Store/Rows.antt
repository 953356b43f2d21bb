-- ===== src/Store/Rows.antt =====
-- The rows of the table of bookmarks by key, after a write.
use bookmarks_api.Prelude.{
  ℕ, ◌≡◌, refl, subst, false, none, some, List, [], ◌∷◌, ◌++◌, arith, find, select, Bool-cases, inl,
  inr,
}
use bookmarks_api.Models.{Bookmark, has_id}
use bookmarks_api.Repository.Bookmarks.{is_current, update_row, update_rows}
use bookmarks_api.Repository.Bookmarks.Rows.{ids, IsDistinct, has_id-current}
use bookmarks_api.Service.Bookmarks.Deletion.{kept}
use bookmarks_api.Store.{view_rows, put}

pub view_rows-absent :
    (rows : List Bookmark) (i : ℕ) → has_id i (ids rows) ≡ false → view_rows rows i ≡ none
unfolding view_rows find has_id
view_rows-absent [] i h = refl
view_rows-absent (r ∷ rows) i h = ground (arith, view_rows-absent rows i)

pub view_rows-append :
    (rows : List Bookmark) (b : Bookmark) (i : ℕ)
    → has_id b.id (ids rows) ≡ false
    → view_rows (rows ++ b ∷ []) i ≡ put (view_rows rows) b.id (some b) i
unfolding view_rows find has_id
view_rows-append [] b i h = ground arith
view_rows-append (r ∷ rows) b i h = ground (arith, view_rows-append rows b i)

-- The row that the guard of a commit finds is the one under its key.
pub view_rows-current :
    (loaded : Bookmark) (rows : List Bookmark) (row : Bookmark)
    → IsDistinct (ids rows)
    → find (is_current loaded) rows ≡ some row
    → (row.id ≡ loaded.id) × (view_rows rows loaded.id ≡ some row)
unfolding view_rows find
view_rows-current loaded [] row d h = cc
view_rows-current loaded (r ∷ rows) row (fresh, d) h = elim (Bool-cases (is_current loaded r)) [
  | inl current ↦ ground arith
  | inr past ↦
      let later : find (is_current loaded) rows ≡ some row = rw past at h in
      ground
        (arith, view_rows-current loaded rows row d later, has_id-current loaded rows row later)
]

module _ (now : ℕ) (loaded assigned : Bookmark) where
  update_rows-absent :
      (rows : List Bookmark)
      → has_id loaded.id (ids rows) ≡ false
      → update_rows now loaded assigned rows ≡ rows
  unfolding update_rows has_id
  update_rows-absent [] h = refl
  update_rows-absent (r ∷ rows) h = ground (arith, update_rows-absent rows)

  pub view_rows-update_rows :
      (rows : List Bookmark) (row : Bookmark) (i : ℕ)
      → IsDistinct (ids rows)
      → find (is_current loaded) rows ≡ some row
      → view_rows (update_rows now loaded assigned rows) i
        ≡ put (view_rows rows) loaded.id (some (update_row now loaded assigned row)) i
  unfolding view_rows find update_rows update_row
  view_rows-update_rows [] row i d h = cc
  view_rows-update_rows (r ∷ rows) row i (fresh, d) h = elim (Bool-cases (is_current loaded r)) [
    | inl current ↦
        let absent : has_id loaded.id (ids rows) ≡ false =
          subst (λ j. has_id j (ids rows) ≡ false) (ground arith) fresh in
        ground (arith, update_rows-absent rows absent)
    | inr past ↦
        let later : find (is_current loaded) rows ≡ some row = rw past at h in
        ground
          (arith, view_rows-update_rows rows row i d later, has_id-current loaded rows row later)
  ]

view_rows-kept_absent :
    (loaded : Bookmark) (rows : List Bookmark)
    → has_id loaded.id (ids rows) ≡ false
    → kept loaded rows ≡ rows
unfolding select has_id
view_rows-kept_absent loaded [] h = refl
view_rows-kept_absent loaded (r ∷ rows) h = ground (arith, view_rows-kept_absent loaded rows)

pub view_rows-kept :
    (loaded : Bookmark) (rows : List Bookmark) (row : Bookmark) (i : ℕ)
    → IsDistinct (ids rows)
    → find (is_current loaded) rows ≡ some row
    → view_rows (kept loaded rows) i ≡ put (view_rows rows) loaded.id none i
unfolding view_rows find select
view_rows-kept loaded [] row i d h = cc
view_rows-kept loaded (r ∷ rows) row i (fresh, d) h = elim (Bool-cases (is_current loaded r)) [
  | inl current ↦
      let absent : has_id loaded.id (ids rows) ≡ false =
        subst (λ j. has_id j (ids rows) ≡ false) (ground arith) fresh in
      ground (arith, view_rows-kept_absent loaded rows absent, view_rows-absent rows i)
  | inr past ↦
      let later : find (is_current loaded) rows ≡ some row = rw past at h in
      ground (arith, view_rows-kept loaded rows row i d later, has_id-current loaded rows row later)
]
