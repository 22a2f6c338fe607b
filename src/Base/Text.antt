-- ===== src/Base/Text.antt =====
-- Go strings as lists of numbers, and what the driver uses of the packages `strings` and `unicode`.
-- Where the source indexes or slices a string the numbers are its bytes; where it ranges over
-- runes (quoting, patterns) they are code points. `Unicode` stands for the tables of `unicode`.
use Prim.Native.Nat.{ℕ, ◌+◌}
use Prim.Native.Char.{code}
use Prim.Native.String.{String}
use mathlib.Core.Path.{◌≡◌, refl}
use mathlib.Core.Logic.{◌↔◌}
use mathlib.Core.Bool.{Bool, true, false, ◌&&◌, ◌||◌}
use mathlib.Core.Option.{Option, none, some}
use mathlib.Core.Option
use mathlib.Core.List.{List, [], ◌∷◌, map, reverse}
use native.Mathlib.Omega.{arith}
use adbc_driver_spark.Base.Tests.{ltb, leb, ◌==◌, if◌then◌else◌}
use adbc_driver_spark.Base.Lists.{all}

abbrev pub Text : Type 0
Text = List ℕ

abbrev pub codes : String → Text
codes String.[] = []
codes (String.◌∷◌ c s) = code c ∷ codes s

-- a == b on strings
unfoldable pub text_eq : Text → Text → Bool
text_eq [] [] = true
text_eq [] (_ ∷ _) = false
text_eq (_ ∷ _) [] = false
text_eq (x ∷ a) (y ∷ b) = x == y && text_eq a b

pub text_eq_iff : (a b : Text) → (text_eq a b ≡ true) ↔ (a ≡ b)
unfolding text_eq
text_eq_iff [] [] = ground arith
text_eq_iff [] (_ ∷ _) = ground arith
text_eq_iff (_ ∷ _) [] = ground arith
text_eq_iff (x ∷ a) (y ∷ b) = ground (arith, text_eq_iff a b)

pub text_eq_refl : (a : Text) → text_eq a a ≡ true
text_eq_refl a = (text_eq_iff a a).1 refl

-- s == a || s == b || …, the cases of a `switch` on a string
unfoldable pub one_of : List Text → Text → Bool
one_of [] s = false
one_of (t ∷ ts) s = text_eq s t || one_of ts s

-- strings.CutPrefix
unfoldable pub cut_prefix : Text → Text → Option Text
cut_prefix [] s = some s
cut_prefix (p ∷ ps) [] = none
cut_prefix (p ∷ ps) (c ∷ s) = if p == c then cut_prefix ps s else none

-- strings.HasPrefix
unfoldable pub has_prefix : Text → Text → Bool
unfolding cut_prefix
has_prefix p s = elim (cut_prefix p s) [ none ↦ false | some _ ↦ true ]

abbrev pub before : ℕ → Option (Text × Text) → Option (Text × Text)
before c none = none
before c (some (a, b)) = some (c ∷ a, b)

-- strings.Cut, which is also strings.Index with the two slices around the match
unfoldable pub cut : Text → Text → Option (Text × Text)
unfolding cut_prefix
cut sep [] = Option.map (λ rest. ([], rest)) (cut_prefix sep [])
cut sep (c ∷ s) = elim (cut_prefix sep (c ∷ s)) [
  | some rest ↦ some ([], rest)
  | none ↦ before c (cut sep s)
]

-- strings.LastIndex at one byte, with the two slices around it
unfoldable pub cut_last : ℕ → Text → Option (Text × Text)
cut_last sep [] = none
cut_last sep (c ∷ s) = elim (cut_last sep s) [
  | some (a, b) ↦ some (c ∷ a, b)
  | none ↦ if c == sep then some ([], s) else none
]

-- strings.TrimSuffix at one byte
unfoldable pub trim_suffix : ℕ → Text → Text
trim_suffix b [] = []
trim_suffix b (c ∷ []) = if c == b then [] else c ∷ []
trim_suffix b (c ∷ d ∷ s) = c ∷ trim_suffix b (d ∷ s)

abbrev pub onto_first : ℕ → List Text → List Text
onto_first c [] = (c ∷ []) ∷ []
onto_first c (t ∷ ts) = (c ∷ t) ∷ ts

-- strings.Split at one byte
unfoldable pub split : ℕ → Text → List Text
split sep [] = [] ∷ []
split sep (c ∷ s) = let rest = split sep s in if c == sep then [] ∷ rest else onto_first c rest

-- What the driver takes from Go's Unicode tables.
pub record Unicode : Type 0 where
  -- strings.ToLower and strings.TrimSpace on a text that is not all ASCII
  pub lower_text : Text → Text
  pub trim_text : Text → Text
  -- unicode.SimpleFold: the next rune of the orbit, and back from the last to the first
  pub simple_fold : ℕ → ℕ

unfoldable pub is_ascii : ℕ → Bool
is_ascii c = ltb c 128

unfoldable pub lower_ascii : ℕ → ℕ
lower_ascii c = if leb b'A' c && leb c b'Z' then c + 32 else c

-- strings.ToLower: byte by byte on ASCII, by the tables otherwise
unfoldable pub to_lower : Unicode → Text → Text
unfolding is_ascii lower_ascii
to_lower u s = if all is_ascii s then map lower_ascii s else u.lower_text s

-- '\t', '\n', '\v', '\f', '\r', ' '
unfoldable pub is_space : ℕ → Bool
is_space c = (leb 9 c && leb c 13) || c == b' '

unfoldable pub trim_left : Text → Text
unfolding is_space
trim_left [] = []
trim_left (c ∷ s) = if is_space c then trim_left s else c ∷ s

-- strings.TrimSpace
unfoldable pub trim_space : Unicode → Text → Text
unfolding is_ascii trim_left
trim_space u s =
    if all is_ascii s then reverse (trim_left (reverse (trim_left s))) else u.trim_text s
