-- ===== src/Repository/Stats/Counts.antt =====
-- The rows that app/repositories/stats/repository.py counts, described row by row.
use bookmarks_api.Prelude.{
  ℕ, suc, ◌≡◌, refl, Bool, true, false, List, [], ◌∷◌, arith, length, select, ◌==◌, if◌then◌else◌,
}
use bookmarks_api.Models.{Bookmark, Link}
use bookmarks_api.Repository.Queries.{is_linked}

-- A pair of `bookmark_tags` is stored.
abbrev pub has_pair : ℕ → ℕ → List Link → Bool
has_pair bookmark_id tag_id [] = false
has_pair bookmark_id tag_id (l ∷ links) =
    if l.bookmark_id == bookmark_id
    then (if l.tag_id == tag_id then true else has_pair bookmark_id tag_id links)
    else has_pair bookmark_id tag_id links

-- How many rows the user has.
abbrev pub owns : ℕ → List Bookmark → ℕ
owns user_id [] = 0
owns user_id (b ∷ bs) = if b.user_id == user_id then suc (owns user_id bs) else owns user_id bs

-- How many rows are the user's and carry the tag.
abbrev pub carriers : ℕ → ℕ → List Link → List Bookmark → ℕ
carriers user_id tag_id links [] = 0
carriers user_id tag_id links (b ∷ bs) =
    if b.user_id == user_id
    then (if has_pair b.id tag_id links
        then suc (carriers user_id tag_id links bs)
        else carriers user_id tag_id links bs)
    else carriers user_id tag_id links bs

is_linked-has_pair :
    (links : List Link) (bookmark_id tag_id : ℕ)
    → is_linked links bookmark_id tag_id ≡ has_pair bookmark_id tag_id links
unfolding is_linked
is_linked-has_pair [] bookmark_id tag_id = refl
is_linked-has_pair (l ∷ links) bookmark_id tag_id =
    ground (arith, is_linked-has_pair links bookmark_id tag_id)

pub length-owns :
    (user_id : ℕ) (bs : List Bookmark)
    → length (select (λ (b : Bookmark). b.user_id == user_id) bs) ≡ owns user_id bs
unfolding select
length-owns user_id [] = refl
length-owns user_id (b ∷ bs) = ground (arith, length-owns user_id bs)

pub length-carriers :
    (user_id tag_id : ℕ) (links : List Link) (bs : List Bookmark)
    → length (
        select
          (λ (b : Bookmark). is_linked links b.id tag_id)
          (select (λ (b : Bookmark). b.user_id == user_id) bs))
      ≡ carriers user_id tag_id links bs
unfolding select
length-carriers user_id tag_id links [] = refl
length-carriers user_id tag_id links (b ∷ bs) =
    ground (arith, length-carriers user_id tag_id links bs, is_linked-has_pair links b.id tag_id)
