-- ===== src/Text/Strip.antt =====
-- On the method `strip` of texts.
use bookmarks_api.Prelude.{ℕ, ◌≡◌, refl, false, ◌&&◌, [], ◌∷◌, arith, Bool-cases, inl, inr}
use bookmarks_api.Text.{Text, is_space, is_empty, lstrip, rstrip, strip}

abbrev pub NoLead : Text → Type 0
NoLead [] = Unit
NoLead (c ∷ s) = is_space c ≡ false

abbrev pub NoTrail : Text → Type 0
NoTrail [] = Unit
NoTrail (c ∷ []) = is_space c ≡ false
NoTrail (c ∷ d ∷ s) = NoTrail (d ∷ s)

lstrip-NoLead : (s : Text) → NoLead (lstrip s)
unfolding lstrip
lstrip-NoLead [] = tt
lstrip-NoLead (c ∷ s) = ground (arith, lstrip-NoLead s)

lstrip_of_NoLead : (s : Text) → NoLead s → lstrip s ≡ s
unfolding lstrip
lstrip_of_NoLead [] h = refl
lstrip_of_NoLead (c ∷ s) h = ground arith

rstrip_of_NoTrail : (s : Text) → NoTrail s → rstrip s ≡ s
unfolding rstrip is_empty
rstrip_of_NoTrail [] h = refl
rstrip_of_NoTrail (c ∷ []) h = ground arith
rstrip_of_NoTrail (c ∷ d ∷ s) h = ground (arith, rstrip_of_NoTrail (d ∷ s) h)

NoTrail-cons : (c : ℕ) (s : Text) → NoTrail s → is_empty s && is_space c ≡ false → NoTrail (c ∷ s)
unfolding is_empty
NoTrail-cons c [] h e = e
NoTrail-cons c (d ∷ s) h e = h

rstrip-NoTrail : (s : Text) → NoTrail (rstrip s)
unfolding rstrip
rstrip-NoTrail [] = tt
rstrip-NoTrail (c ∷ s) = elim (Bool-cases (is_empty (rstrip s) && is_space c)) [
  | inl gone ↦ rw gone tt
  | inr kept ↦ rw kept (NoTrail-cons c (rstrip s) (rstrip-NoTrail s) kept)
]

rstrip-NoLead : (s : Text) → NoLead s → NoLead (rstrip s)
unfolding rstrip is_empty
rstrip-NoLead [] h = tt
rstrip-NoLead (c ∷ s) h = ground arith

pub strip-NoLead : (s : Text) → NoLead (strip s)
unfolding strip
strip-NoLead s = rstrip-NoLead (lstrip s) (lstrip-NoLead s)

pub strip-NoTrail : (s : Text) → NoTrail (strip s)
unfolding strip
strip-NoTrail s = rstrip-NoTrail (lstrip s)

-- A text with no white space at either end is left as it is.
pub strip_of_trimmed : (s : Text) → NoLead s → NoTrail s → strip s ≡ s
unfolding strip
strip_of_trimmed s h k = rw (lstrip_of_NoLead s h) (rstrip_of_NoTrail s k)

pub strip_idem : (s : Text) → strip (strip s) ≡ strip s
strip_idem s = strip_of_trimmed (strip s) (strip-NoLead s) (strip-NoTrail s)
