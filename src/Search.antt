-- ===== src/Search.antt =====
-- The keyword search of app/repositories/bookmark/repository.py: the LIKE pattern that it builds,
-- and the SQL operator `LIKE … ESCAPE '\'`.
pub mod Laws
use bookmarks_api.Prelude.{
  ℕ, Bool, true, false, ◌&&◌, ◌||◌, List, [], ◌∷◌, ◌++◌, ◌==◌, if◌then◌else◌,
}
use bookmarks_api.Text.{Text, is_empty, strip}
use bookmarks_api.Text.Casing.{Casing}

-- `s.replace(c, by)` for a text `c` of one character
unfoldable pub replace : ℕ → Text → Text → Text
replace c by [] = []
replace c by (d ∷ s) = let rest = replace c by s in if d == c then by ++ rest else d ∷ rest

-- `term.replace("\\", "\\\\").replace("%", "\\%").replace("_", "\\_")`
unfoldable pub escape_like : Text → Text
escape_like term =
    replace b'_' (b'\\' ∷ b'_' ∷ [])
      (replace b'%' (b'\\' ∷ b'%' ∷ []) (replace b'\\' (b'\\' ∷ b'\\' ∷ []) term))

-- `f"%{term}%"` of the trimmed, lowercased and escaped keyword
unfoldable pub like_pattern : Casing → Text → Text
like_pattern casing q = b'%' ∷ escape_like (casing.lower (strip q)) ++ b'%' ∷ []

-- What a character of a pattern asks for.
pub data LikeToken : Type 0 where
  literal : ℕ → LikeToken
  any_run any_one : LikeToken

token : ℕ → LikeToken
token c = if c == b'%' then any_run else if c == b'_' then any_one else literal c

-- The flag is set behind an escape character. An escape character at the end, which the program
-- never writes, stands for itself.
unfoldable pub parse_like : Bool → Text → List LikeToken
unfolding token
parse_like true [] = literal b'\\' ∷ []
parse_like false [] = []
parse_like true (c ∷ s) = literal c ∷ parse_like false s
parse_like false (c ∷ s) =
    let escaped = parse_like true s in
    let plain = parse_like false s in if c == b'\\' then escaped else token c ∷ plain

-- Some end of the text passes the test.
unfoldable pub any_suffix : (Text → Bool) → Text → Bool
any_suffix p [] = p []
any_suffix p (c ∷ s) = p (c ∷ s) || any_suffix p s

unfoldable pub like_tokens : List LikeToken → Text → Bool
unfolding any_suffix is_empty
like_tokens [] s = is_empty s
like_tokens (any_run ∷ ts) s = any_suffix (like_tokens ts) s
like_tokens (any_one ∷ ts) [] = false
like_tokens (any_one ∷ ts) (c ∷ s) = like_tokens ts s
like_tokens (literal d ∷ ts) [] = false
like_tokens (literal d ∷ ts) (c ∷ s) = d == c && like_tokens ts s

-- `text LIKE pattern ESCAPE '\'`
unfoldable pub like : Text → Text → Bool
unfolding parse_like like_tokens
like s pattern_ = like_tokens (parse_like false pattern_) s
