-- ===== src/Text/Casing.antt =====
-- `str.lower` reads the Unicode tables of the interpreter, which the repository does not hold: it
-- is a parameter, with what the code relies on as laws.
use bookmarks_api.Prelude.{
  ℕ, ◌+◌, ◌≡◌, refl, ◌&&◌, [], ◌∷◌, map, arith, leb, if◌then◌else◌, Bool-cases, inl, inr,
}
use bookmarks_api.Text.{Text, is_space, is_empty, lstrip, rstrip, strip}

pub record Casing : Type 0 where
  pub lower : Text → Text
  -- Lower case text stays as it is.
  pub lower_idem : (s : Text) → lower (lower s) ≡ lower s
  -- White space has no case, and no letter becomes white space.
  pub strip-lower : (s : Text) → strip (lower s) ≡ lower (strip s)

-- ASCII letters only: the tables of the C locale, which meet the laws.
unfoldable pub ascii_lower_code : ℕ → ℕ
ascii_lower_code c = if leb b'A' c && leb c b'Z' then c + 32 else c

unfoldable pub ascii_lower : Text → Text
unfolding ascii_lower_code
ascii_lower s = map ascii_lower_code s

ascii_lower_code_idem : (c : ℕ) → ascii_lower_code (ascii_lower_code c) ≡ ascii_lower_code c
unfolding ascii_lower_code
ascii_lower_code_idem c = ground arith

pub ascii_lower_idem : (s : Text) → ascii_lower (ascii_lower s) ≡ ascii_lower s
unfolding ascii_lower
ascii_lower_idem [] = refl
ascii_lower_idem (c ∷ s) = cc (ascii_lower_code_idem c, ascii_lower_idem s)

is_space-ascii_lower_code : (c : ℕ) → is_space (ascii_lower_code c) ≡ is_space c
unfolding ascii_lower_code is_space
is_space-ascii_lower_code c = ground arith

lstrip-ascii_lower : (s : Text) → lstrip (ascii_lower s) ≡ ascii_lower (lstrip s)
unfolding lstrip ascii_lower
lstrip-ascii_lower [] = refl
lstrip-ascii_lower (c ∷ s) = elim (Bool-cases (is_space c)) [
  | inl space ↦ rw (is_space-ascii_lower_code c, space) (lstrip-ascii_lower s)
  | inr kept ↦ rw (is_space-ascii_lower_code c, kept)
]

is_empty-ascii_lower : (s : Text) → is_empty (ascii_lower s) ≡ is_empty s
unfolding is_empty ascii_lower
is_empty-ascii_lower [] = refl
is_empty-ascii_lower (c ∷ s) = refl

rstrip-ascii_lower : (s : Text) → rstrip (ascii_lower s) ≡ ascii_lower (rstrip s)
unfolding rstrip ascii_lower
rstrip-ascii_lower [] = refl
rstrip-ascii_lower (c ∷ s) =
    ground
      (arith, rstrip-ascii_lower s, is_empty-ascii_lower (rstrip s), is_space-ascii_lower_code c)

pub ascii_strip-lower : (s : Text) → strip (ascii_lower s) ≡ ascii_lower (strip s)
unfolding strip
ascii_strip-lower s = rw lstrip-ascii_lower (rstrip-ascii_lower (lstrip s))

abbrev pub ascii : Casing
ascii = record {
  lower = ascii_lower;
  lower_idem = ascii_lower_idem;
  strip-lower = ascii_strip-lower;
}
