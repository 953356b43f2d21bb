-- ===== src/Etag/Laws.antt =====
-- On `matches` and `make_etag` of app/utils/etag/etag.py.
use bookmarks_api.Prelude.{
  ℕ, ◌≡◌, ◌≢◌, refl, sym, ap, ◌∙◌, ◌↔◌, ◌⊎◌, inl, inr, true, false, List, [], ◌∷◌, ◌++◌, arith, All,
  All-append, All-map, subst, leb, length, drop, Bool-cases,
}
use bookmarks_api.Text.{
  Text, text_eq, lstrip, rstrip, text_eq_iff, is_empty, is_space, strip, split, starts_with, str,
  push_head,
}
use bookmarks_api.Text.Strip.{NoTrail, strip_of_trimmed}
use bookmarks_api.Text.Decimal.{IsDigit, str-IsDigit, str_injective}
use bookmarks_api.Etag.{make_etag, last_is, init, quotes, matches_any, matches}

-- Some element has the property.
abbrev pub Any : (Text → Type 0) → List Text → Type 0
Any P [] = ⊥
Any P (x ∷ xs) = P x ⊎ Any P xs

-- A token of the header that names the version, or any version.
abbrev pub Names : Text → Text → Type 0
Names current token = (strip token ≡ b'*' ∷ []) ⊎ (strip token ≡ b'"' ∷ current ++ b'"' ∷ [])

last_is-append : (c : ℕ) (s : Text) → last_is c (s ++ c ∷ []) ≡ true
last_is-append c [] = ground arith
last_is-append c (d ∷ []) = ground arith
last_is-append c (d ∷ e ∷ s) = last_is-append c (e ∷ s)

init-append : (c : ℕ) (s : Text) → init (s ++ c ∷ []) ≡ s
init-append c [] = refl
init-append c (d ∷ []) = refl
init-append c (d ∷ e ∷ s) = ap (◌∷◌ d) (init-append c (e ∷ s))

append-init : (c d : ℕ) (s : Text) → last_is c (d ∷ s) ≡ true → d ∷ s ≡ init (d ∷ s) ++ c ∷ []
append-init c d [] h = ground arith
append-init c d (e ∷ s) h = ap (◌∷◌ d) (append-init c e s h)

quotes_sound : (current tag : Text) → quotes current tag ≡ true → tag ≡ b'"' ∷ current ++ b'"' ∷ []
unfolding quotes
quotes_sound current [] h = ground arith
quotes_sound current (d ∷ []) h = ground arith
quotes_sound current (d ∷ e ∷ s) h =
    ground (arith, append-init b'"' e s, text_eq_iff (init (e ∷ s)) current)

last_is-cons :
    (c d : ℕ) (s : Text) → last_is c (s ++ c ∷ []) ≡ true → last_is c (d ∷ s ++ c ∷ []) ≡ true
last_is-cons c d [] h = h
last_is-cons c d (e ∷ s) h = h

two-le-length : (c d : ℕ) (s : Text) → leb 2 (length (d ∷ s ++ c ∷ [])) ≡ true
two-le-length c d [] = ground arith
two-le-length c d (e ∷ s) = ground arith

quotes_complete : (current : Text) → quotes current (b'"' ∷ current ++ b'"' ∷ []) ≡ true
unfolding quotes
quotes_complete current =
    rw
      (
        two-le-length b'"' b'"' current,
        last_is-cons b'"' b'"' current (last_is-append b'"' current),
        init-append b'"' current,
      )
      ((text_eq_iff current current).1 refl)

weak-ne : (s t : Text) → starts_with (b'W' ∷ b'/' ∷ []) t ≡ true → t ≢ b'"' ∷ s
unfolding starts_with
weak-ne s [] h e = cc
weak-ne s (c ∷ []) h e = ground arith
weak-ne s (c ∷ d ∷ t) h e = ground arith

weak-ne-star : (t : Text) → starts_with (b'W' ∷ b'/' ∷ []) t ≡ true → t ≢ b'*' ∷ []
unfolding starts_with
weak-ne-star [] h e = cc
weak-ne-star (c ∷ []) h e = ground arith
weak-ne-star (c ∷ d ∷ t) h e = ground arith

is_empty_iff : (s : Text) → is_empty s ≡ true → s ≡ []
unfolding is_empty
is_empty_iff [] h = refl
is_empty_iff (c ∷ s) h = cc

matches_any_sound :
    (current : Text) (tokens : List Text)
    → matches_any current tokens ≡ true
    → Any (Names current) tokens
unfolding matches_any
matches_any_sound current [] h = cc
matches_any_sound current (t ∷ ts) h = ground (
  arith,
  matches_any_sound current ts,
  text_eq_iff (strip t) (b'*' ∷ []),
  quotes_sound current (strip t),
)

Names-matches_any :
    (current token : Text) (tokens : List Text)
    → Names current token
    → matches_any current (token ∷ tokens) ≡ true
unfolding matches_any is_empty starts_with text_eq
Names-matches_any current token tokens (inl star) = rw star (ground arith)
Names-matches_any current token tokens (inr quoted) =
    rw (quoted, quotes_complete current) (ground arith)

matches_any_complete :
    (current : Text) (tokens : List Text)
    → Any (Names current) tokens
    → matches_any current tokens ≡ true
unfolding matches_any
matches_any_complete current [] h = absurd h
matches_any_complete current (t ∷ ts) (inl here) = Names-matches_any current t ts here
matches_any_complete current (t ∷ ts) (inr there) =
    ground (arith, matches_any_complete current ts there)

-- `matches` holds exactly when some token of the comma-separated header is, white space aside, `*`
-- or the strong entity tag that `make_etag` writes for the version.
pub matches_iff :
    (if_match_header : Text) (version : ℕ)
    → (matches if_match_header version ≡ true)
      ↔ Any
          (λ token. (strip token ≡ b'*' ∷ []) ⊎ (strip token ≡ make_etag version))
          (split b',' if_match_header)
unfolding matches make_etag
matches_iff header version = (
  matches_any_sound (str version) (split b',' header),
  matches_any_complete (str version) (split b',' header),
)

-- A text with no separator is one part.
split_whole : (sep : ℕ) (s : Text) → All (λ c. c ≢ sep) s → split sep s ≡ s ∷ []
unfolding split push_head
split_whole sep [] h = refl
split_whole sep (c ∷ s) (p, h) = ground (arith, split_whole sep s h)

digit-ne-comma : (c : ℕ) → IsDigit c → c ≢ b','
digit-ne-comma c h = ground arith

make_etag-NoComma : (n : ℕ) → All (λ c. c ≢ b',') (make_etag n)
unfolding make_etag
make_etag-NoComma n = (
  omega arith,
  All-append (λ c. c ≢ b',') (str n) (b'"' ∷ []) (All-map digit-ne-comma (str n) (str-IsDigit n))
      (omega arith),
)

quoted-NoTrail : (s : Text) → NoTrail (s ++ b'"' ∷ [])
unfolding is_space
quoted-NoTrail [] = refl
quoted-NoTrail (c ∷ []) = refl
quoted-NoTrail (c ∷ d ∷ s) = quoted-NoTrail (d ∷ s)

pub strip-make_etag : (n : ℕ) → strip (make_etag n) ≡ make_etag n
unfolding make_etag is_space
strip-make_etag n =
    strip_of_trimmed (b'"' ∷ str n ++ b'"' ∷ []) refl (quoted-NoTrail (b'"' ∷ str n))

make_etag_injective : (m n : ℕ) → make_etag m ≡ make_etag n → m ≡ n
unfolding make_etag
make_etag_injective m n h =
    str_injective m n
      (sym (init-append b'"' (str m)) ∙ ap (λ s. init (drop 1 s)) h ∙ init-append b'"' (str n))

-- The tag of one version matches another version exactly when the versions are the same.
pub matches-make_etag : (m n : ℕ) → (matches (make_etag m) n ≡ true) ↔ (m ≡ n)
unfolding make_etag
matches-make_etag m n = (sound, complete)
  where
    whole : split b',' (make_etag m) ≡ make_etag m ∷ []
    whole = split_whole b',' (make_etag m) (make_etag-NoComma m)

    one_token : Any (Names (str n)) (make_etag m ∷ []) → m ≡ n
    one_token (inl (inl star)) = absurd (ground (arith, strip-make_etag m))
    one_token (inl (inr same)) = make_etag_injective m n (sym (strip-make_etag m) ∙ same)
    one_token (inr none_left) = absurd none_left

    sound : matches (make_etag m) n ≡ true → m ≡ n
    sound h = one_token (subst (Any (Names (str n))) whole ((matches_iff (make_etag m) n).0 h))

    complete : m ≡ n → matches (make_etag m) n ≡ true
    complete e =
        (matches_iff (make_etag m) n).1 (rw whole (inl (inr (strip-make_etag m ∙ ap make_etag e))))

strip-cons : (c : ℕ) (s : Text) → is_space c ≡ false → (r : Text) × (strip (c ∷ s) ≡ c ∷ r)
unfolding strip lstrip rstrip
strip-cons c s h = (rstrip s, ground arith)

-- A weak entity tag never matches, whatever it quotes.
pub matches_weak :
    (s : Text) (version : ℕ) → All (λ c. c ≢ b',') s → matches (b'W' ∷ b'/' ∷ s) version ≡ false
unfolding is_space make_etag
matches_weak s version h = elim (Bool-cases (matches (b'W' ∷ b'/' ∷ s) version)) [
  | inl found ↦ absurd (
      one_token
        (subst (Any (Names (str version))) whole ((matches_iff (b'W' ∷ b'/' ∷ s) version).0 found)))
  | inr missed ↦ missed
]
  where
    whole : split b',' (b'W' ∷ b'/' ∷ s) ≡ (b'W' ∷ b'/' ∷ s) ∷ []
    whole = split_whole b',' (b'W' ∷ b'/' ∷ s) (omega arith, (omega arith, h))

    kept : (r : Text) × (strip (b'W' ∷ b'/' ∷ s) ≡ b'W' ∷ r)
    kept = strip-cons b'W' (b'/' ∷ s) refl

    one_token : Any (Names (str version)) ((b'W' ∷ b'/' ∷ s) ∷ []) → ⊥
    one_token (inl (inl star)) = ground (arith, kept)
    one_token (inl (inr same)) = ground (arith, kept)
    one_token (inr none_left) = none_left
