-- ===== src/Text.antt =====
-- Python's `str`, as the list of its code points, and the methods that the program calls on it.
pub mod Strip
pub mod Decimal
pub mod Casing
pub mod Number
use Prim.Native.Char.{code}
use Prim.Native.String.{String}
use bookmarks_api.Prelude.{
  ℕ, zero, suc, ◌+◌, ◌/◌, ◌%◌, ◌≡◌, ◌≢◌, refl, Bool-cases, inl, inr, ◌↔◌, Bool, true, false, ◌&&◌,
  ◌||◌, List, [], ◌∷◌, ◌++◌, arith, leb, ltb, ◌==◌, if◌then◌else◌,
}

abbrev pub Text : Type 0
Text = List ℕ

-- The code points of a literal.
unfoldable pub codes : String → Text
codes String.[] = []
codes (String.◌∷◌ c s) = code c ∷ codes s

-- `s == t`
unfoldable pub text_eq : Text → Text → Bool
text_eq [] [] = true
text_eq (a ∷ s) (b ∷ t) = a == b && text_eq s t
text_eq _ _ = false

-- `not s`
unfoldable pub is_empty : Text → Bool
is_empty [] = true
is_empty (c ∷ s) = false

-- `str.isspace` of one character, the characters that `strip()` removes.
unfoldable pub is_space : ℕ → Bool
is_space c =
    leb 9 c && leb c 13
    || leb 28 c && leb c 32
    || c == 133
    || c == 160
    || c == 5760
    || leb 8192 c && leb c 8202
    || c == 8232
    || c == 8233
    || c == 8239
    || c == 8287
    || c == 12288

unfoldable pub lstrip : Text → Text
lstrip [] = []
lstrip (c ∷ s) = let rest = lstrip s in if is_space c then rest else c ∷ s

unfoldable pub rstrip : Text → Text
rstrip [] = []
rstrip (c ∷ s) = let rest = rstrip s in if is_empty rest && is_space c then [] else c ∷ rest

-- `s.strip()`
unfoldable pub strip : Text → Text
strip s = rstrip (lstrip s)

-- `s.startswith(prefix)`
unfoldable pub starts_with : Text → Text → Bool
starts_with [] s = true
starts_with (p ∷ ps) [] = false
starts_with (p ∷ ps) (c ∷ s) = p == c && starts_with ps s

-- `s.split(sep)` for a separator of one character
unfoldable pub push_head : ℕ → List Text → List Text
push_head c [] = (c ∷ []) ∷ []
push_head c (part ∷ parts) = (c ∷ part) ∷ parts

unfoldable pub split : ℕ → Text → List Text
unfolding push_head
split sep [] = [] ∷ []
split sep (c ∷ s) = let rest = split sep s in if c == sep then [] ∷ rest else push_head c rest

-- `sub in s`
unfoldable pub contains : Text → Text → Bool
contains sub [] = is_empty sub
contains sub (c ∷ s) = starts_with sub (c ∷ s) || contains sub s

-- `str(n)` of an integer that is not negative; the fuel is above the number of its digits.
unfoldable pub digits : ℕ → ℕ → Text
digits zero n = []
digits (suc f) n =
    let rest = digits f (n / 10) in if ltb n 10 then (48 + n) ∷ [] else rest ++ (48 + n % 10) ∷ []

unfoldable pub str : ℕ → Text
unfolding digits
str n = digits (suc n) n

pub text_eq_iff : (s t : Text) → (text_eq s t ≡ true) ↔ (s ≡ t)
unfolding text_eq
text_eq_iff [] [] = ground arith
text_eq_iff (a ∷ s) (b ∷ t) = ground (arith, text_eq_iff s t)
text_eq_iff _ _ = ground arith

pub text_eq_refl : (s : Text) → text_eq s s ≡ true
text_eq_refl s = (text_eq_iff s s).1 refl

pub text_eq_ne : (s t : Text) → s ≢ t → text_eq s t ≡ false
text_eq_ne s t h = elim (Bool-cases (text_eq s t)) [
  | inl same ↦ absurd (h ((text_eq_iff s t).0 same))
  | inr differ ↦ differ
]

str_example : str 4096 ≡ codes "4096"
unfolding str codes
str_example = refl

split_example : split b',' (codes "a,,b") ≡ codes "a" ∷ [] ∷ codes "b" ∷ []
unfolding split codes
split_example = refl
