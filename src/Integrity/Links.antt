-- ===== src/Integrity/Links.antt =====
-- The pairs of `bookmark_tags`, when one is added or some are taken out.
use bookmarks_api.Prelude.{
  ℕ, ◌≡◌, refl, Bool, true, false, ◌&&◌, List, [], ◌∷◌, ◌++◌, arith, select, ◌==◌, if◌then◌else◌,
  Bool-cases, inl, inr,
}
use bookmarks_api.Models.{Link}
use bookmarks_api.Repository.Queries.{is_linked}
use bookmarks_api.Integrity.{HasPairs}

pub is_linked-append :
    (ls : List Link) (l : Link) (bookmark_id tag_id : ℕ)
    → is_linked (ls ++ l ∷ []) bookmark_id tag_id ≡ (
        if l.bookmark_id == bookmark_id && l.tag_id == tag_id
        then true
        else is_linked ls bookmark_id tag_id)
unfolding is_linked
is_linked-append [] l bookmark_id tag_id = ground arith
is_linked-append (k ∷ ls) l bookmark_id tag_id =
    ground (arith, is_linked-append ls l bookmark_id tag_id)

pub HasPairs-snoc :
    (ls : List Link) (l : Link)
    → HasPairs ls
    → is_linked ls l.bookmark_id l.tag_id ≡ false
    → HasPairs (ls ++ l ∷ [])
unfolding is_linked
HasPairs-snoc [] l d h = (refl, tt)
HasPairs-snoc (k ∷ ls) l (fresh, d) h =
    ground (arith, is_linked-append ls l k.bookmark_id k.tag_id, HasPairs-snoc ls l d)

is_linked-select :
    (p : Link → Bool) (ls : List Link) (bookmark_id tag_id : ℕ)
    → is_linked ls bookmark_id tag_id ≡ false
    → is_linked (select p ls) bookmark_id tag_id ≡ false
unfolding is_linked select
is_linked-select p [] bookmark_id tag_id h = refl
is_linked-select p (l ∷ ls) bookmark_id tag_id h =
    ground (arith, is_linked-select p ls bookmark_id tag_id)

pub HasPairs-select : (p : Link → Bool) (ls : List Link) → HasPairs ls → HasPairs (select p ls)
unfolding select
HasPairs-select p [] d = tt
HasPairs-select p (l ∷ ls) (fresh, d) = elim (Bool-cases (p l)) [
  | inl here ↦ rw here (is_linked-select p ls l.bookmark_id l.tag_id fresh, HasPairs-select p ls d)
  | inr gone ↦ rw gone (HasPairs-select p ls d)
]
