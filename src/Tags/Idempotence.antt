-- ===== src/Tags/Idempotence.antt =====
-- On `normalize_tags` of app/utils/tags/normalizer.py, which the schema layer and the service layer
-- both call.
use bookmarks_api.Prelude.{
  ◌≤◌, ◌≡◌, refl, ap, ◌∙◌, false, Option, some, List, [], ◌∷◌, ◌++◌, map, arith, append_assoc,
  append-nil, All, length,
}
use bookmarks_api.Text.{Text, text_eq_iff}
use bookmarks_api.Text.Casing.{Casing}
use bookmarks_api.Result.{ok, ◌>>=◌}
use bookmarks_api.Tags.{
  RawTag, string, max_tags_per_bookmark, member, normalize_loop, bounded, normalize_tags,
}
use bookmarks_api.Tags.Laws.{IsTag, IsDistinct, normalize_tags-IsTag}

-- No name of the list is in `seen`.
abbrev Unseen : List Text → List Text → Type 0
Unseen [] seen = Unit
Unseen (x ∷ xs) seen = (member x seen ≡ false) × Unseen xs seen

Unseen-nil : (xs : List Text) → Unseen xs []
unfolding member
Unseen-nil [] = tt
Unseen-nil (x ∷ xs) = (refl, Unseen-nil xs)

Unseen-cons :
    (name : Text) (xs seen : List Text)
    → member name xs ≡ false
    → Unseen xs seen
    → Unseen xs (name ∷ seen)
unfolding member
Unseen-cons name [] seen h u = tt
Unseen-cons name (x ∷ xs) seen h (fresh, u) =
    ground (arith, text_eq_iff name x, text_eq_iff x name, Unseen-cons name xs seen)

module _ (casing : Casing) where
  loop_of_tags :
      (names normalized seen : List Text)
      → All (IsTag casing) names
      → IsDistinct names
      → Unseen names seen
      → normalize_loop casing (map string names) normalized seen ≡ ok (normalized ++ names)
  unfolding normalize_loop
  loop_of_tags [] normalized seen tags d u = rw append-nil
  loop_of_tags (x ∷ names) normalized seen (tag, tags) (once, d) (fresh, u) = ground (
    arith,
    tag.cleaned,
    tag.nonblank,
    tag.short,
    loop_of_tags names (normalized ++ x ∷ []) (x ∷ seen) tags d (Unseen-cons x names seen once u),
    append_assoc normalized (x ∷ []) names,
  )

  bounded_of_few :
      (names : List Text) → length names ≤ max_tags_per_bookmark → bounded casing names ≡ ok names
  unfolding bounded
  bounded_of_few names few = ground arith

  normalize_tags-cons :
      (x : RawTag) (raw : List RawTag)
      → normalize_tags casing (some (x ∷ raw))
        ≡ (normalize_loop casing (x ∷ raw) [] [] >>= bounded casing)
  unfolding normalize_tags
  normalize_tags-cons x raw = refl

  normalize_of_tags :
      (names : List Text)
      → All (IsTag casing) names
      → IsDistinct names
      → length names ≤ max_tags_per_bookmark
      → normalize_tags casing (some (map string names)) ≡ ok names
  normalize_of_tags [] tags d few = unfold normalize_tags in refl
  normalize_of_tags (x ∷ names) tags d few =
      normalize_tags-cons (string x) (map string names)
      ∙ ap (λ r. r >>= bounded casing)
          (loop_of_tags (x ∷ names) [] [] tags d (Unseen-nil (x ∷ names)))
      ∙ bounded_of_few (x ∷ names) few

  -- A list of tags that is normalised already is left as it is.
  pub normalize_tags_idem :
      (raw : Option (List RawTag)) (out : List Text)
      → normalize_tags casing raw ≡ ok out
      → normalize_tags casing (some (map string out)) ≡ ok out
  normalize_tags_idem raw out h =
      let (tags, distinct, few) = normalize_tags-IsTag casing raw out h in
      normalize_of_tags out tags distinct few
