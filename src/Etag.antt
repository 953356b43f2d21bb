-- ===== src/Etag.antt =====
-- app/utils/etag/etag.py: the ETag of a version, and the strong comparison of `If-Match`.
pub mod Laws
use bookmarks_api.Prelude.{
  ℕ, suc, ◌≤◌, Bool, true, false, ◌&&◌, Option, none, some, List, [], ◌∷◌, ◌++◌, ◌==◌, ltb, leb,
  length, drop, if◌then◌else◌,
}
use bookmarks_api.Text.{Text, codes, text_eq, is_empty, strip, split, starts_with, str}

-- `VersionETagService.make_etag`
unfoldable pub make_etag : ℕ → Text
make_etag version = b'"' ∷ str version ++ b'"' ∷ []

-- `tag[0] == c`
abbrev pub first_is : ℕ → Text → Bool
first_is c [] = false
first_is c (d ∷ s) = d == c

-- `tag[-1] == c`
abbrev pub last_is : ℕ → Text → Bool
last_is c [] = false
last_is c (d ∷ []) = d == c
last_is c (d ∷ e ∷ s) = last_is c (e ∷ s)

-- `s[:-1]`
abbrev pub init : Text → Text
init [] = []
init (d ∷ []) = []
init (d ∷ e ∷ s) = d ∷ init (e ∷ s)

-- `len(tag) >= 2 and tag[0] == '"' and tag[-1] == '"'`, then `tag[1:-1] == current`
unfoldable pub quotes : Text → Text → Bool
quotes current tag =
    if leb 2 (length tag) && first_is b'"' tag && last_is b'"' tag
    then text_eq (init (drop 1 tag)) current
    else false

-- The loop over the tokens of the header.
unfoldable pub matches_any : Text → List Text → Bool
unfolding quotes
matches_any current [] = false
matches_any current (token ∷ tokens) =
    let tag = strip token in
    let rest = matches_any current tokens in
    if is_empty tag
    then rest
    else if text_eq tag (b'*' ∷ [])
    then true
    else if starts_with (b'W' ∷ b'/' ∷ []) tag
    then rest
    else if quotes current tag
    then true
    else rest

-- `VersionETagService.matches`
unfoldable pub matches : Text → ℕ → Bool
unfolding matches_any
matches if_match_header version = matches_any (str version) (split b',' if_match_header)
