-- ===== src/Integrity/Keys.antt =====
-- Rows that are added to a table, or taken out of it, and its keys.
use bookmarks_api.Prelude.{
  ℕ, ◌≡◌, refl, Bool, true, false, List, [], ◌∷◌, ◌++◌, map, arith, All, select, ◌==◌,
  if◌then◌else◌, Bool-cases, inl, inr,
}
use bookmarks_api.Text.{Text, text_eq, text_eq_iff}
use bookmarks_api.Models.{Tag, has_id}
use bookmarks_api.Tags.{member}
use bookmarks_api.Repository.Tags.Laws.{names_of}
use bookmarks_api.Repository.Queries.Joins.{HasNames}
use bookmarks_api.Repository.Bookmarks.Rows.{IsDistinct}

module _ {ℓ} {A : Type ℓ} (key : A → ℕ) where
  pub has_id-append :
      (i : ℕ) (xs : List A) (x : A)
      → has_id i (map key (xs ++ x ∷ [])) ≡ (if key x == i then true else has_id i (map key xs))
  unfolding has_id
  has_id-append i [] x = refl
  has_id-append i (y ∷ ys) x = ground (arith, has_id-append i ys x)

  -- A key that is there stays there.
  pub has_id_kept :
      (i : ℕ) (xs : List A) (x : A)
      → has_id i (map key xs) ≡ true
      → has_id i (map key (xs ++ x ∷ [])) ≡ true
  has_id_kept i xs x h = ground (arith, has_id-append i xs x)

  pub IsDistinct-snoc :
      (xs : List A) (x : A)
      → IsDistinct (map key xs)
      → has_id (key x) (map key xs) ≡ false
      → IsDistinct (map key (xs ++ x ∷ []))
  unfolding has_id
  IsDistinct-snoc [] x d h = (refl, tt)
  IsDistinct-snoc (y ∷ ys) x (fresh, d) h =
      ground (arith, has_id-append (key y) ys x, IsDistinct-snoc ys x d)

  pub has_id-select :
      (p : A → Bool) (i : ℕ) (xs : List A)
      → has_id i (map key xs) ≡ false
      → has_id i (map key (select p xs)) ≡ false
  unfolding has_id select
  has_id-select p i [] h = refl
  has_id-select p i (x ∷ xs) h = ground (arith, has_id-select p i xs)

  pub IsDistinct-select :
      (p : A → Bool) (xs : List A) → IsDistinct (map key xs) → IsDistinct (map key (select p xs))
  unfolding has_id select
  IsDistinct-select p [] d = tt
  IsDistinct-select p (x ∷ xs) (fresh, d) = elim (Bool-cases (p x)) [
    | inl here ↦ rw here (has_id-select p (key x) xs fresh, IsDistinct-select p xs d)
    | inr gone ↦ rw gone (IsDistinct-select p xs d)
  ]

pub All-select {ℓ κ} :
    {A : Type ℓ} (P : A → Type κ) (p : A → Bool) (xs : List A) → All P xs → All P (select p xs)
unfolding select
All-select P p [] h = tt
All-select P p (x ∷ xs) (px, h) = elim (Bool-cases (p x)) [
  | inl here ↦ rw here (px, All-select P p xs h)
  | inr gone ↦ rw gone (All-select P p xs h)
]

-- Rows that pass a test have the property.
pub All-select_passed {ℓ κ} :
    {A : Type ℓ} (P Q : A → Type κ) (p : A → Bool) (xs : List A)
    → ((x : A) → p x ≡ true → P x → Q x)
    → All P xs
    → All Q (select p xs)
unfolding select
All-select_passed P Q p [] f h = tt
All-select_passed P Q p (x ∷ xs) f (px, h) = elim (Bool-cases (p x)) [
  | inl here ↦ rw here (f x here px, All-select_passed P Q p xs f h)
  | inr gone ↦ rw gone (All-select_passed P Q p xs f h)
]

member-snoc :
    (name : Text) (ts : List Tag) (t : Tag)
    → member name (names_of (ts ++ t ∷ []))
      ≡ (if text_eq t.name name then true else member name (names_of ts))
unfolding member
member-snoc name [] t = refl
member-snoc name (u ∷ us) t = ground (arith, member-snoc name us t)

pub HasNames-snoc :
    (ts : List Tag) (t : Tag)
    → HasNames ts
    → member t.name (names_of ts) ≡ false
    → HasNames (ts ++ t ∷ [])
unfolding member
HasNames-snoc [] t d h = (refl, tt)
HasNames-snoc (u ∷ us) t (fresh, d) h = ground (
  arith,
  member-snoc u.name us t,
  HasNames-snoc us t d,
  text_eq_iff u.name t.name,
  text_eq_iff t.name u.name,
)
