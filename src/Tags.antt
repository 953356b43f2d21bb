-- ===== src/Tags.antt =====
-- app/utils/tags/normalizer.py: trim, lowercase, drop blanks, de-duplicate, and bound tag names.
pub mod Laws
pub mod Idempotence
use bookmarks_api.Prelude.{
  ℕ, Bool, true, false, Option, none, some, List, [], ◌∷◌, ◌++◌, ltb, length, take, if◌then◌else◌,
}
use bookmarks_api.Text.{Text, codes, text_eq, is_empty, strip, str}
use bookmarks_api.Text.Casing.{Casing}
use bookmarks_api.Result.{Result, ok, raise, value_error, ◌>>=◌}

abbrev pub max_tag_length : ℕ
max_tag_length = 50

abbrev pub max_tags_per_bookmark : ℕ
max_tags_per_bookmark = 30

-- An element of the list that comes in: `isinstance(item, str)` tells them apart.
pub data RawTag : Type 0 where
  string : Text → RawTag
  other : RawTag

-- `name in seen`
unfoldable pub member : Text → List Text → Bool
member name [] = false
member name (x ∷ xs) = let rest = member name xs in if text_eq x name then true else rest

module _ (casing : Casing) where
  -- `item.strip().lower()`
  abbrev pub clean : Text → Text
  clean item = casing.lower (strip item)

  too_long : Text → Text
  too_long name =
      codes "Tag '"
      ++ take 20 name
      ++ codes "…' exceeds "
      ++ str max_tag_length
      ++ codes " characters."

  -- The loop of `normalize_tags`, over its variables `normalized` and `seen`.
  unfoldable pub normalize_loop : List RawTag → List Text → List Text → Result (List Text)
  unfolding too_long
  normalize_loop [] normalized seen = ok normalized
  normalize_loop (other ∷ raw) normalized seen =
      raise (value_error (codes "Each tag must be a string."))
  normalize_loop (string item ∷ raw) normalized seen =
      let name = clean item in
      let skipped = normalize_loop raw normalized seen in
      let kept = normalize_loop raw (normalized ++ name ∷ []) (name ∷ seen) in
      if is_empty name
      then skipped
      else if ltb max_tag_length (length name)
      then raise (value_error (too_long name))
      else if member name seen
      then skipped
      else kept

  -- The test on the number of tags.
  unfoldable pub bounded : List Text → Result (List Text)
  bounded normalized =
      if ltb max_tags_per_bookmark (length normalized)
      then raise (
          value_error
            (codes "A bookmark may have at most " ++ str max_tags_per_bookmark ++ codes " tags."))
      else ok normalized

  -- `normalize_tags`, and `TagNormalizer.normalize`, which calls it.
  unfoldable pub normalize_tags : Option (List RawTag) → Result (List Text)
  unfolding normalize_loop bounded
  normalize_tags none = ok []
  normalize_tags (some []) = ok []
  normalize_tags (some (item ∷ raw)) = do
    normalized ← normalize_loop (item ∷ raw) [] []
    bounded normalized
