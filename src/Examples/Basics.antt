-- ===== src/Examples/Basics.antt =====
-- Entity tags, tag names, keywords and error responses on small inputs.
use bookmarks_api.Prelude.{
  map, List, ◌≤◌, length, All, ◌≡◌, ◌↔◌, ◌⊎◌, refl, true, false, some, [], ◌∷◌,
}
use bookmarks_api.Text.{
  Text, is_space, codes, split, strip, is_empty, contains, text_eq, lstrip, rstrip,
}
use bookmarks_api.Text.Casing.{ascii, ascii_lower}
use bookmarks_api.Etag.{make_etag, matches}
use bookmarks_api.Etag.Laws.{Any, matches_iff}
use bookmarks_api.Result.{ok}
use bookmarks_api.Tags.{RawTag, string, max_tags_per_bookmark, normalize_tags, member}
use bookmarks_api.Tags.Laws.{IsTag, IsDistinct, Occurs, normalize_tags-IsTag, normalize_tags-member}
use bookmarks_api.Tags.Idempotence.{normalize_tags_idem}
use bookmarks_api.Search.{like, like_pattern}
use bookmarks_api.Search.Laws.{like-like_pattern}
use bookmarks_api.Errors.{unexpected, handle_exception}
use bookmarks_api.Errors.Laws.{IsEnvelope, handle_exception-IsEnvelope}

matches_iff_example :
    (matches (codes "W/\"3\", \"4\"") 4 ≡ true)
    ↔ Any
        (λ token. (strip token ≡ codes "*") ⊎ (strip token ≡ make_etag 4))
        (split b',' (codes "W/\"3\", \"4\""))
unfolding codes
matches_iff_example = matches_iff (codes "W/\"3\", \"4\"") 4

like-like_pattern_example :
    like (codes "a 50% b") (like_pattern ascii (codes " 50% "))
    ≡ contains (codes "50%") (codes "a 50% b")
unfolding codes ascii_lower strip rstrip lstrip is_space is_empty
like-like_pattern_example = like-like_pattern ascii (codes " 50% ") (codes "a 50% b")

handle_exception-IsEnvelope_example : IsEnvelope (handle_exception unexpected).content
handle_exception-IsEnvelope_example = handle_exception-IsEnvelope unexpected

abbrev tag_input : List RawTag
tag_input = string (codes " Web ") ∷ string (codes "web") ∷ string (codes " ") ∷ []

abbrev tag_output : List Text
tag_output = codes "web" ∷ []

normalize_tags-IsTag_example :
    All (IsTag ascii) tag_output
    × IsDistinct tag_output
    × (length tag_output ≤ max_tags_per_bookmark)
unfolding normalize_tags codes strip is_empty is_space text_eq member ascii_lower rstrip lstrip
normalize_tags-IsTag_example = normalize_tags-IsTag ascii (some tag_input) tag_output refl

normalize_tags-member_example :
    (member (codes "web") tag_output ≡ true)
    ↔ (Occurs ascii (codes "web") tag_input × (is_empty (codes "web") ≡ false))
unfolding normalize_tags codes strip is_empty is_space text_eq member ascii_lower rstrip lstrip
normalize_tags-member_example =
    normalize_tags-member ascii (some tag_input) tag_output (codes "web") refl

normalize_tags_idem_example : normalize_tags ascii (some (map string tag_output)) ≡ ok tag_output
unfolding normalize_tags codes strip is_empty is_space text_eq member ascii_lower rstrip lstrip
normalize_tags_idem_example = normalize_tags_idem ascii (some tag_input) tag_output refl
