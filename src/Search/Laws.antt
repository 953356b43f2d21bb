-- ===== src/Search/Laws.antt =====
-- On the keyword search of app/repositories/bookmark/repository.py.
use bookmarks_api.Prelude.{
  ℕ, ◌≡◌, refl, ap, ◌∙◌, fun_ext, ◌≡⟨◌⟩◌, ◌∎, true, false, ◌&&◌, ◌||◌, List, [], ◌∷◌, ◌++◌,
  append_assoc, arith, ◌==◌, if◌then◌else◌,
}
use bookmarks_api.Text.{Text, is_empty, strip, contains, starts_with}
use bookmarks_api.Text.Casing.{Casing}
use bookmarks_api.Search.{
  replace, escape_like, like_pattern, LikeToken, literal, any_run, parse_like, any_suffix,
  like_tokens, like,
}

-- What the three replacements make of one character.
escape_code : ℕ → Text
escape_code c =
    if c == b'\\'
    then b'\\' ∷ b'\\' ∷ []
    else if c == b'%'
    then b'\\' ∷ b'%' ∷ []
    else if c == b'_'
    then b'\\' ∷ b'_' ∷ []
    else c ∷ []

escape_like-cons : (c : ℕ) (s : Text) → escape_like (c ∷ s) ≡ escape_code c ++ escape_like s
unfolding escape_like replace escape_code
escape_like-cons c s = ground arith

parse-escape_code :
    (c : ℕ) (rest : Text)
    → parse_like false (escape_code c ++ rest) ≡ literal c ∷ parse_like false rest
unfolding parse_like escape_code
parse-escape_code c rest = ground arith

literals : Text → List LikeToken → List LikeToken
literals [] ts = ts
literals (c ∷ s) ts = literal c ∷ literals s ts

parse-escape_like :
    (term rest : Text)
    → parse_like false (escape_like term ++ rest) ≡ literals term (parse_like false rest)
unfolding literals
parse-escape_like [] rest = unfold escape_like replace in refl
parse-escape_like (c ∷ term) rest =
    rw (escape_like-cons c term, append_assoc)
      (parse-escape_code c (escape_like term ++ rest)
        ∙ ap (◌∷◌ (literal c)) (parse-escape_like term rest))

-- Behind the keyword anything may stand.
like_run : (s : Text) → like_tokens (any_run ∷ []) s ≡ true
unfolding like_tokens
like_run [] = refl
like_run (c ∷ s) = ground (arith, like_run s)

like_literal :
    (c d : ℕ) (ts : List LikeToken) (s : Text)
    → like_tokens (literal c ∷ ts) (d ∷ s) ≡ c == d && like_tokens ts s
unfolding like_tokens
like_literal c d ts s = refl

like_literals : (term s : Text) → like_tokens (literals term (any_run ∷ [])) s ≡ starts_with term s
unfolding literals starts_with
like_literals [] s = like_run s
like_literals (c ∷ term) [] = unfold like_tokens in refl
like_literals (c ∷ term) (d ∷ s) =
    like_literal c d (literals term (any_run ∷ [])) s ∙ ap (λ b. c == d && b) (like_literals term s)

any_suffix-contains : (term s : Text) → any_suffix (starts_with term) s ≡ contains term s
unfolding any_suffix contains starts_with is_empty
any_suffix-contains [] [] = refl
any_suffix-contains (c ∷ term) [] = refl
any_suffix-contains term (d ∷ s) =
    ap (λ b. starts_with term (d ∷ s) || b) (any_suffix-contains term s)

parse_like_run : (rest : Text) → parse_like false (b'%' ∷ rest) ≡ any_run ∷ parse_like false rest
unfolding parse_like
parse_like_run rest = refl

parse_like_nil : parse_like false [] ≡ []
unfolding parse_like
parse_like_nil = refl

like_tokens_run :
    (ts : List LikeToken) (s : Text) → like_tokens (any_run ∷ ts) s ≡ any_suffix (like_tokens ts) s
unfolding like_tokens
like_tokens_run ts s = refl

like_surrounded :
    (term s : Text)
    → like_tokens (parse_like false (b'%' ∷ escape_like term ++ b'%' ∷ [])) s ≡ contains term s
like_surrounded term s =
    like_tokens (parse_like false (b'%' ∷ escape_like term ++ b'%' ∷ [])) s
    ≡⟨ ap (λ ts. like_tokens ts s) (parse_like_run (escape_like term ++ b'%' ∷ [])) ⟩
      like_tokens (any_run ∷ parse_like false (escape_like term ++ b'%' ∷ [])) s
    ≡⟨ ap (λ ts. like_tokens (any_run ∷ ts) s)
        (parse-escape_like term (b'%' ∷ [])
          ∙ ap (literals term) (parse_like_run [] ∙ ap (◌∷◌ any_run) parse_like_nil)) ⟩
      like_tokens (any_run ∷ literals term (any_run ∷ [])) s
    ≡⟨ like_tokens_run (literals term (any_run ∷ [])) s ⟩
      any_suffix (like_tokens (literals term (any_run ∷ []))) s
    ≡⟨ ap (λ p. any_suffix p s) (fun_ext (like_literals term)) ⟩ any_suffix (starts_with term) s
    ≡⟨ any_suffix-contains term s ⟩ contains term s ∎

-- The pattern of a keyword matches a text exactly when the text contains the trimmed, lowercased
-- keyword: no character of the keyword acts as a wildcard.
pub like-like_pattern :
    (casing : Casing) (q s : Text)
    → like s (like_pattern casing q) ≡ contains (casing.lower (strip q)) s
unfolding like_pattern
like-like_pattern casing q s = unfold like in like_surrounded (casing.lower (strip q)) s
