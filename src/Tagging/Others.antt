-- ===== src/Tagging/Others.antt =====
-- The tags of the bookmarks that a creation of app/services/bookmark/service.py does not concern.
use bookmarks_api.Prelude.{
  ℕ, ◌≡◌, refl, sym, ap, subst, ◌∙◌, Bool, true, false, List, [], ◌∷◌, ◌++◌, arith, All, select,
  append-nil, Bool-cases, inl, inr, ◌==◌,
}
use bookmarks_api.Models.{Tag, Bookmark, Link, Db, has_id}
use bookmarks_api.Repository.Queries.{is_linked}
use bookmarks_api.Repository.Bookmarks.{tag_ids}
use bookmarks_api.Repository.Bookmarks.Rows.{ids, IsDistinct}
use bookmarks_api.Service.Bookmarks.{tags_of}
use bookmarks_api.Integrity.{IsValid, IsAttached}
use bookmarks_api.Tagging.Rows.{no_false}

select-ext {ℓ} :
    {A : Type ℓ} (p q : A → Bool) (xs : List A) → ((x : A) → p x ≡ q x) → select p xs ≡ select q xs
unfolding select
select-ext p q [] h = refl
select-ext p q (x ∷ xs) h = ground (arith, h x, select-ext p q xs h)

select-append {ℓ} :
    {A : Type ℓ} (p : A → Bool) (xs ys : List A) → select p (xs ++ ys) ≡ select p xs ++ select p ys
unfolding select
select-append p [] ys = refl
select-append p (x ∷ xs) ys = ground (arith, select-append p xs ys)

attached-linked :
    (bookmarks tags : List ℕ) (links : List Link) (i t : ℕ)
    → All (IsAttached bookmarks tags) links
    → is_linked links i t ≡ true
    → has_id t tags ≡ true
unfolding is_linked
attached-linked bookmarks tags [] i t h l = cc
attached-linked bookmarks tags (k ∷ links) i t ((b, there), h) l =
    elim (Bool-cases (k.tag_id == t)) [
      | inl same ↦ subst (λ j. has_id j tags ≡ true) (ground arith) there
      | inr other ↦ attached-linked bookmarks tags links i t h (ground arith)
    ]

-- A tag that the table does not hold is linked to no bookmark.
select_unlinked :
    (db : Db) (i : ℕ) (created : List Tag)
    → IsValid db
    → All (λ (t : Tag). has_id t.id (tag_ids db.tags) ≡ false) created
    → select (λ (t : Tag). is_linked db.bookmark_tags i t.id) created ≡ []
unfolding select
select_unlinked db i [] v h = refl
select_unlinked db i (t ∷ ts) v (fresh, h) = elim (Bool-cases (is_linked db.bookmark_tags i t.id)) [
  | inl linked ↦ absurd (
      no_false (
        sym fresh
        ∙ attached-linked (ids db.bookmarks) (tag_ids db.tags) db.bookmark_tags i t.id v.attached
            linked))
  | inr unlinked ↦ rw unlinked (select_unlinked db i ts v h)
]

pub distinct_after : (xs ys : List ℕ) → IsDistinct (xs ++ ys) → All (λ y. has_id y xs ≡ false) ys
unfolding has_id
distinct_after [] ys d = everywhere ys
  where
    everywhere : (zs : List ℕ) → All (λ y. has_id y [] ≡ false) zs
    everywhere [] = tt
    everywhere (z ∷ zs) = (refl, everywhere zs)
distinct_after (x ∷ xs) ys (fresh, d) = cons ys (distinct_after xs ys d) (apart xs ys fresh)
  where
    apart : (us vs : List ℕ) → has_id x (us ++ vs) ≡ false → All (λ y. (x == y) ≡ false) vs
    apart [] [] h = tt
    apart [] (v ∷ vs) h = (ground arith, apart [] vs (ground arith))
    apart (u ∷ us) vs h = apart us vs (ground arith)

    cons :
        (vs : List ℕ)
        → All (λ y. has_id y xs ≡ false) vs
        → All (λ y. (x == y) ≡ false) vs
        → All (λ y. has_id y (x ∷ xs) ≡ false) vs
    cons [] h k = tt
    cons (v ∷ vs) (a, h) (b, k) = (ground arith, cons vs h k)

tag_ids-append : (xs ys : List Tag) → tag_ids (xs ++ ys) ≡ tag_ids xs ++ tag_ids ys
tag_ids-append [] ys = refl
tag_ids-append (x ∷ xs) ys = ap (◌∷◌ x.id) (tag_ids-append xs ys)

All-tag_ids : (P : ℕ → Type 0) (ts : List Tag) → All P (tag_ids ts) → All (λ (t : Tag). P t.id) ts
All-tag_ids P [] h = tt
All-tag_ids P (t ∷ ts) (p, h) = (p, All-tag_ids P ts h)

-- A bookmark whose links stay has the tags that it had, when only new tags are added.
pub tags_of_kept :
    (db after : Db) (b : Bookmark) (created : List Tag)
    → IsValid db
    → IsValid after
    → after.tags ≡ db.tags ++ created
    → ((tag_id : ℕ)
        → is_linked after.bookmark_tags b.id tag_id ≡ is_linked db.bookmark_tags b.id tag_id)
    → tags_of after b ≡ tags_of db b
unfolding tags_of
tags_of_kept db after b created v w tags same =
    let p : Tag → Bool = λ t. is_linked db.bookmark_tags b.id t.id in
    let distinct : IsDistinct (tag_ids db.tags ++ tag_ids created) =
      subst IsDistinct (ap tag_ids tags ∙ tag_ids-append db.tags created) w.tags in
    let fresh =
      All-tag_ids (λ i. has_id i (tag_ids db.tags) ≡ false) created
        (distinct_after (tag_ids db.tags) (tag_ids created) distinct) in
    select-ext (λ (t : Tag). is_linked after.bookmark_tags b.id t.id) p after.tags (λ t. same t.id)
    ∙ ap (select p) tags
    ∙ select-append p db.tags created
    ∙ ap (λ ts. select p db.tags ++ ts) (select_unlinked db b.id created v fresh)
    ∙ append-nil (select p db.tags)
