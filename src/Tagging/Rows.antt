-- ===== src/Tagging/Rows.antt =====
-- Rows of the table of tags, by name and by key.
use bookmarks_api.Prelude.{
  ◌≡◌, refl, sym, ap, subst, ◌∙◌, Bool, true, false, ◌&&◌, some, List, [], ◌∷◌, All, All-map, arith,
  find, select, ◌==◌, Bool-cases, inl, inr,
}
use mathlib.Core.Option.{some-injective}
use bookmarks_api.Text.{Text, text_eq, text_eq_iff, text_eq_refl}
use bookmarks_api.Models.{Tag, Db, has_id}
use bookmarks_api.Tags.{member}
use bookmarks_api.Tags.Laws
use bookmarks_api.Repository.Tags.{tag_named}
use bookmarks_api.Repository.Tags.Laws.{names_of}
use bookmarks_api.Repository.Queries.Joins.{HasNames}
use bookmarks_api.Repository.Bookmarks.{tag_ids}
use bookmarks_api.Repository.Bookmarks.Rows.{IsDistinct}
use bookmarks_api.Integrity.Tags.{IsRow, stored_named}

pub no_false : false ≡ true → ⊥
no_false h = cc

-- Rows with one key are one row.
same_row :
    (ts : List Tag) (n m : Text) (t u : Tag)
    → IsDistinct (tag_ids ts)
    → tag_named n ts ≡ some t
    → tag_named m ts ≡ some u
    → t.id ≡ u.id
    → t ≡ u
unfolding find has_id
same_row [] n m t u d h k e = cc
same_row (x ∷ ts) n m t u (fresh, d) h k e =
    ground (arith, same_row ts n m t u d, stored_named n ts t, stored_named m ts u)

-- Of rows of the table, a key is among the keys exactly if its name is among the names.
pub has_id-member :
    (db : Db) (t : Tag) (us : List Tag)
    → IsDistinct (tag_ids db.tags)
    → IsRow db t
    → All (IsRow db) us
    → has_id t.id (tag_ids us) ≡ member t.name (names_of us)
unfolding has_id member
has_id-member db t [] d h rows = refl
has_id-member db t (u ∷ us) d h (row, rows) = elim (Bool-cases (u.id == t.id)) [
  | inl same ↦
      let one : u ≡ t = same_row db.tags u.name t.name u t d row h (ground arith) in
      let named : text_eq u.name t.name ≡ true =
        (text_eq_iff u.name t.name).1 (ap (λ x. x.name) one) in
      rw (same, named) refl
  | inr differs ↦ elim (Bool-cases (text_eq u.name t.name)) [
    | inl named ↦
        let name : u.name ≡ t.name = (text_eq_iff u.name t.name).0 named in
        let one : u ≡ t = some-injective u t (sym row ∙ ap (λ n. tag_named n db.tags) name ∙ h) in
        absurd (ground (arith, ap (λ (x : Tag). x.id) one))
    | inr other ↦ rw (differs, other) (has_id-member db t us d h rows)
  ]
]

-- Rows with distinct names have distinct keys.
pub IsDistinct-tag_ids :
    (db : Db) (us : List Tag)
    → IsDistinct (tag_ids db.tags)
    → All (IsRow db) us
    → Laws.IsDistinct (names_of us)
    → IsDistinct (tag_ids us)
IsDistinct-tag_ids db [] d rows names = tt
IsDistinct-tag_ids db (u ∷ us) d (row, rows) (fresh, names) =
    (has_id-member db u us d row rows ∙ fresh, IsDistinct-tag_ids db us d rows names)

All-both {ℓ κ} :
    {A : Type ℓ} {P Q : A → Type κ} {R : A → Type κ} (xs : List A)
    → ((x : A) → P x → Q x → R x)
    → All P xs
    → All Q xs
    → All R xs
All-both [] f ps qs = tt
All-both (x ∷ xs) f (p, ps) (q, qs) = (f x p q, All-both xs f ps qs)

all_named : (ts : List Tag) → All (λ (t : Tag). member t.name (names_of ts) ≡ true) ts
unfolding member
all_named [] = tt
all_named (t ∷ ts) = (
  ground (arith, text_eq_refl t.name),
  All-map (λ (u : Tag) h. ground (arith, h)) ts (all_named ts),
)

-- Every row of a table with distinct names is the one with its name.
pub HasNames-IsRow :
    (ts : List Tag) → HasNames ts → All (λ (t : Tag). tag_named t.name ts ≡ some t) ts
unfolding find
HasNames-IsRow [] d = tt
HasNames-IsRow (x ∷ ts) (fresh, d) = (
  ground (arith, text_eq_refl x.name),
  All-both ts (λ (t : Tag) named row. later t named row) (all_named ts) (HasNames-IsRow ts d),
)
  where
    later :
        (t : Tag)
        → member t.name (names_of ts) ≡ true
        → tag_named t.name ts ≡ some t
        → tag_named t.name (x ∷ ts) ≡ some t
    later t named row = elim (Bool-cases (text_eq x.name t.name)) [
      | inl same ↦ absurd (
          no_false (
            sym fresh
            ∙ ap (λ n. member n (names_of ts)) ((text_eq_iff x.name t.name).0 same)
            ∙ named))
      | inr other ↦ rw other row
    ]

row_named :
    (name : Text) (ts : List Tag) (t : Tag)
    → tag_named name ts ≡ some t
    → member name (names_of ts) ≡ true
unfolding find member
row_named name [] t h = cc
row_named name (x ∷ ts) t h = ground (arith, row_named name ts t)

-- The names of rows are names of the table.
pub member-rows :
    (db : Db) (name : Text) (us : List Tag)
    → All (IsRow db) us
    → member name (names_of us) ≡ true
    → member name (names_of db.tags) ≡ true
unfolding member
member-rows db name [] rows h = cc
member-rows db name (u ∷ us) (row, rows) h = elim (Bool-cases (text_eq u.name name)) [
  | inl same ↦
      subst (λ n. member n (names_of db.tags) ≡ true) ((text_eq_iff u.name name).0 same)
        (row_named u.name db.tags u row)
  | inr other ↦ member-rows db name us rows (rw other at h)
]

-- A test that tells rows by their names selects those names.
pub member-select :
    (p : Tag → Bool) (names : List Text) (name : Text) (ts : List Tag)
    → All (λ (t : Tag). p t ≡ member t.name names) ts
    → member name (names_of (select p ts)) ≡ (member name (names_of ts) && member name names)
unfolding member select
member-select p names name [] h = refl
member-select p names name (t ∷ ts) (e, h) = elim (Bool-cases (text_eq t.name name)) [
  | inl same ↦
      let e' : p t ≡ member name names =
        e ∙ ap (λ n. member n names) ((text_eq_iff t.name name).0 same) in
      ground (arith, member-select p names name ts h, e')
  | inr other ↦ ground (arith, member-select p names name ts h)
]
