-- ===== src/Tags/Laws.antt =====
-- On `normalize_tags` of app/utils/tags/normalizer.py: the names that it returns.
use bookmarks_api.Prelude.{
  ◌≤◌, ◌≡◌, refl, sym, ap, ◌∙◌, ◌↔◌, ◌⊎◌, inl, inr, true, false, Option, none, some, List, [], ◌∷◌,
  ◌++◌, arith, All, All-append, ltb, length, if◌then◌else◌, Bool-cases,
}
use bookmarks_api.Text.{Text, text_eq, text_eq_iff, is_empty, strip}
use bookmarks_api.Text.Strip.{strip_idem}
use bookmarks_api.Text.Casing.{Casing}
use bookmarks_api.Result.{Result, ok, raise, ◌>>=◌}
use bookmarks_api.Tags.{
  RawTag, string, other, max_tag_length, max_tags_per_bookmark, member, clean, normalize_loop,
  bounded, normalize_tags,
}

pub member-append :
    (name : Text) (xs : List Text) (y : Text)
    → member name (xs ++ y ∷ []) ≡ (if text_eq y name then true else member name xs)
unfolding member
member-append name [] y = refl
member-append name (x ∷ xs) y = ground (arith, member-append name xs y)

-- No name occurs twice.
abbrev pub IsDistinct : List Text → Type 0
IsDistinct [] = Unit
IsDistinct (x ∷ xs) = (member x xs ≡ false) × IsDistinct xs

pub IsDistinct-append :
    (xs : List Text) (y : Text) → IsDistinct xs → member y xs ≡ false → IsDistinct (xs ++ y ∷ [])
unfolding member
IsDistinct-append [] y d h = (refl, tt)
IsDistinct-append (x ∷ xs) y (fresh, d) h =
    ground (arith, member-append x xs y, IsDistinct-append xs y d, text_eq_iff x y, text_eq_iff y x)

module _ (casing : Casing) where
  -- A name as the loop appends it.
  pub record IsTag (name : Text) : Type 0 where
    pub cleaned : clean casing name ≡ name
    pub nonblank : is_empty name ≡ false
    pub short : length name ≤ max_tag_length

  -- `name` is the clean form of some item of the input.
  abbrev pub Occurs : Text → List RawTag → Type 0
  Occurs name [] = ⊥
  Occurs name (string item ∷ raw) = (clean casing item ≡ name) ⊎ Occurs name raw
  Occurs name (other ∷ raw) = Occurs name raw

  pub clean_idem : (item : Text) → clean casing (clean casing item) ≡ clean casing item
  clean_idem item =
      ap casing.lower (casing.strip-lower (strip item))
      ∙ casing.lower_idem (strip (strip item))
      ∙ ap casing.lower (strip_idem item)

  -- The two variables of the loop hold the same names, each once.
  record IsAccumulator (normalized seen : List Text) : Type 0 where
    tags : All IsTag normalized
    distinct : IsDistinct normalized
    same : (name : Text) → member name seen ≡ member name normalized

  add-IsAccumulator :
      (name : Text) (normalized seen : List Text)
      → IsAccumulator normalized seen
      → IsTag name
      → member name seen ≡ false
      → IsAccumulator (normalized ++ name ∷ []) (name ∷ seen)
  unfolding member
  add-IsAccumulator name normalized seen acc tag fresh = record {
    tags = All-append IsTag normalized (name ∷ []) acc.tags (tag, tt);
    distinct = IsDistinct-append normalized name acc.distinct (sym (acc.same name) ∙ fresh);
    same = λ other_name. rw (member-append other_name normalized name, acc.same other_name);
  }

  new_tag :
      (item : Text)
      → is_empty (clean casing item) ≡ false
      → ltb max_tag_length (length (clean casing item)) ≡ false
      → IsTag (clean casing item)
  new_tag item nonblank short = record {
    cleaned = clean_idem item;
    nonblank = nonblank;
    short = ground arith;
  }

  -- How a round of the loop that does not raise goes on.
  data Round (item : Text) (raw : List RawTag) (normalized seen out : List Text) : Type 0 where
    blank :
        is_empty (clean casing item) ≡ true
        → normalize_loop casing raw normalized seen ≡ ok out
        → Round item raw normalized seen out
    old :
        member (clean casing item) seen ≡ true
        → normalize_loop casing raw normalized seen ≡ ok out
        → Round item raw normalized seen out
    new :
        IsTag (clean casing item)
        → member (clean casing item) seen ≡ false
        → normalize_loop casing raw
            (normalized ++ clean casing item ∷ [])
            (clean casing item ∷ seen)
          ≡ ok out
        → Round item raw normalized seen out

  round :
      (item : Text) (raw : List RawTag) (normalized seen out : List Text)
      → normalize_loop casing (string item ∷ raw) normalized seen ≡ ok out
      → Round item raw normalized seen out
  unfolding normalize_loop
  round item raw normalized seen out h =
      let name = clean casing item in
      elim (Bool-cases (is_empty name)) [
        | inl gone ↦ blank gone (rw gone at h)
        | inr nonblank ↦ elim (Bool-cases (ltb max_tag_length (length name))) [
          | inl long ↦ absurd (ground arith)
          | inr short ↦ elim (Bool-cases (member name seen)) [
            | inl known ↦ old known (rw (nonblank, short, known) at h)
            | inr fresh ↦ new (new_tag item nonblank short) fresh (rw (nonblank, short, fresh) at h)
          ]
        ]
      ]

  -- A property of the result that holds for the rest of the loop holds for the whole of it.
  Round-IsAccumulator :
      {item : Text} {raw : List RawTag} {normalized seen out : List Text}
      → ((n s : List Text)
          → IsAccumulator n s
          → normalize_loop casing raw n s ≡ ok out
          → All IsTag out × IsDistinct out)
      → IsAccumulator normalized seen
      → Round item raw normalized seen out
      → All IsTag out × IsDistinct out
  Round-IsAccumulator ih acc (blank _ rest) = ih _ _ acc rest
  Round-IsAccumulator ih acc (old _ rest) = ih _ _ acc rest
  Round-IsAccumulator ih acc (new tag fresh rest) =
      ih _ _ (add-IsAccumulator _ _ _ acc tag fresh) rest

  loop-IsAccumulator :
      (raw : List RawTag) (normalized seen out : List Text)
      → IsAccumulator normalized seen
      → normalize_loop casing raw normalized seen ≡ ok out
      → All IsTag out × IsDistinct out
  unfolding normalize_loop
  loop-IsAccumulator [] normalized seen out acc h = ground (arith, acc.tags, acc.distinct)
  loop-IsAccumulator (other ∷ raw) normalized seen out acc h = cc
  loop-IsAccumulator (string item ∷ raw) normalized seen out acc h =
      Round-IsAccumulator (λ n s. loop-IsAccumulator raw n s out) acc
        (round item raw normalized seen out h)

  -- The names of the result are those collected so far and the clean names still to come.
  abbrev Collected : Text → List RawTag → List Text → List Text → Type 0
  Collected name raw normalized out =
      (member name out ≡ true)
      ↔ ((member name normalized ≡ true) ⊎ (Occurs name raw × (is_empty name ≡ false)))

  Round-Collected :
      (name : Text) (raw : List RawTag) (item : Text) (normalized seen out : List Text)
      → ((n s : List Text)
          → IsAccumulator n s
          → normalize_loop casing raw n s ≡ ok out
          → Collected name raw n out)
      → IsAccumulator normalized seen
      → Round item raw normalized seen out
      → Collected name (string item ∷ raw) normalized out
  Round-Collected name raw item normalized seen out ih acc (blank gone rest) =
      ground (arith, ih normalized seen acc rest)
  Round-Collected name raw item normalized seen out ih acc (old known rest) =
      ground (arith, ih normalized seen acc rest, acc.same (clean casing item))
  Round-Collected name raw item normalized seen out ih acc (new tag fresh rest) =
      let added = clean casing item in
      ground (
        arith,
        ih (normalized ++ added ∷ []) (added ∷ seen)
            (add-IsAccumulator added normalized seen acc tag fresh) rest,
        member-append name normalized added,
        text_eq_iff added name,
        tag.nonblank,
      )

  loop-Collected :
      (raw : List RawTag) (normalized seen out : List Text) (name : Text)
      → IsAccumulator normalized seen
      → normalize_loop casing raw normalized seen ≡ ok out
      → Collected name raw normalized out
  unfolding normalize_loop
  loop-Collected [] normalized seen out name acc h = ground arith
  loop-Collected (other ∷ raw) normalized seen out name acc h = cc
  loop-Collected (string item ∷ raw) normalized seen out name acc h =
      Round-Collected name raw item normalized seen out
        (λ n s a r. loop-Collected raw n s out name a r) acc (round item raw normalized seen out h)

  empty-IsAccumulator : IsAccumulator [] []
  empty-IsAccumulator = record { tags = tt; distinct = tt; same = λ name. refl }

  abbrev items_of : Option (List RawTag) → List RawTag
  items_of none = []
  items_of (some raw) = raw

  then_bounded :
      (r : Result (List Text)) (out : List Text)
      → (r >>= bounded casing) ≡ ok out
      → (r ≡ ok out) × (length out ≤ max_tags_per_bookmark)
  unfolding bounded
  then_bounded (ok names) out h = ground arith
  then_bounded (raise e) out h = cc

  loop_of_normalize :
      (raw : Option (List RawTag)) (out : List Text)
      → normalize_tags casing raw ≡ ok out
      → (normalize_loop casing (items_of raw) [] [] ≡ ok out) × (length out ≤ max_tags_per_bookmark)
  unfolding normalize_tags
  loop_of_normalize none out h = ground arith
  loop_of_normalize (some []) out h = ground arith
  loop_of_normalize (some (x ∷ raw)) out h =
      then_bounded (normalize_loop casing (x ∷ raw) [] []) out h

  -- A normalised list holds at most 30 names, each clean, not blank and of at most 50 characters,
  -- and none twice.
  pub normalize_tags-IsTag :
      (raw : Option (List RawTag)) (out : List Text)
      → normalize_tags casing raw ≡ ok out
      → All IsTag out × IsDistinct out × (length out ≤ max_tags_per_bookmark)
  normalize_tags-IsTag raw out h =
      let (loop, few) = loop_of_normalize raw out h in
      let (tags, distinct) = loop-IsAccumulator (items_of raw) [] [] out empty-IsAccumulator loop in
      (tags, distinct, few)

  -- A name is in the normalised list exactly when it is not blank and is the clean form of some
  -- item of the input.
  pub normalize_tags-member :
      (raw : Option (List RawTag)) (out : List Text) (name : Text)
      → normalize_tags casing raw ≡ ok out
      → (member name out ≡ true) ↔ (Occurs name (items_of raw) × (is_empty name ≡ false))
  unfolding member
  normalize_tags-member raw out name h =
      let both =
        loop-Collected (items_of raw) [] [] out name empty-IsAccumulator
          (loop_of_normalize raw out h).0 in
      ground (arith, both)
