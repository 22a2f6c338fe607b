-- ===== src/Connect/Config/Split.antt =====
-- Cutting and splitting at a byte that the pieces avoid.
use mathlib.Core.List.{reverse, reverse-append, reverse-reverse}
use adbc_driver_spark.Base.{
  ℕ, ◌<◌, true, false, ◌≡◌, ◌≢◌, refl, ap, ◌∙◌, none, some, List, [], ◌∷◌, ◌++◌, map, arith, All,
  All-append, all,
}
use adbc_driver_spark.Base.Text.{
  Text, Unicode, cut_prefix, cut, cut_last, before, split, trim_suffix, trim_left, trim_space,
  to_lower, is_space, is_ascii, lower_ascii,
}

abbrev pub Avoids : ℕ → Text → Type 0
Avoids x s = All (λ c. c ≢ x) s

pub cut_prefix-append : (p s : Text) → cut_prefix p (p ++ s) ≡ some s
unfolding cut_prefix
cut_prefix-append [] s = refl
cut_prefix-append (c ∷ p) s = ground (arith, cut_prefix-append p s)

cut_prefix_ne : (x : ℕ) (p : Text) (c : ℕ) (s : Text) → c ≢ x → cut_prefix (x ∷ p) (c ∷ s) ≡ none
unfolding cut_prefix
cut_prefix_ne x p c s n = ground arith

cut_here : (x : ℕ) (p s : Text) → cut (x ∷ p) ((x ∷ p) ++ s) ≡ some ([], s)
unfolding cut
cut_here x p s = rw (cut_prefix-append (x ∷ p) s, cut)

cut_later :
    (x : ℕ) (p : Text) (c : ℕ) (s : Text) → c ≢ x → cut (x ∷ p) (c ∷ s) ≡ before c (cut (x ∷ p) s)
unfolding cut
cut_later x p c s n = rw (cut_prefix_ne x p c s n, cut)

-- A separator is found behind a text that avoids its first byte.
pub cut-append :
    (x : ℕ) (p a b : Text) → Avoids x a → cut (x ∷ p) (a ++ ((x ∷ p) ++ b)) ≡ some (a, b)
cut-append x p [] b h = cut_here x p b
cut-append x p (c ∷ a) b h =
    cut_later x p c (a ++ ((x ∷ p) ++ b)) h.0 ∙ ap (before c) (cut-append x p a b h.1)

pub cut_absent : (x : ℕ) (p s : Text) → Avoids x s → cut (x ∷ p) s ≡ none
cut_absent x p [] h = unfold cut cut_prefix in refl
cut_absent x p (c ∷ s) h = cut_later x p c s h.0 ∙ ap (before c) (cut_absent x p s h.1)

pub cut_last_absent : (x : ℕ) (s : Text) → Avoids x s → cut_last x s ≡ none
unfolding cut_last
cut_last_absent x [] h = refl
cut_last_absent x (c ∷ s) h = rw (cut_last_absent x s h.1, cut_last) (ground arith)

-- The last separator is the one behind which there is none.
pub cut_last-append : (x : ℕ) (a b : Text) → Avoids x b → cut_last x (a ++ x ∷ b) ≡ some (a, b)
unfolding cut_last
cut_last-append x [] b h = rw (cut_last_absent x b h, cut_last) (ground arith)
cut_last-append x (c ∷ a) b h = rw (cut_last-append x a b h, cut_last)

pub trim_suffix_absent : (x : ℕ) (s : Text) → Avoids x s → trim_suffix x s ≡ s
unfolding trim_suffix
trim_suffix_absent x [] h = refl
trim_suffix_absent x (c ∷ []) h = ground arith
trim_suffix_absent x (c ∷ d ∷ s) h = ap (◌∷◌ c) (trim_suffix_absent x (d ∷ s) h.1)

-- The pieces of a list that is not empty, with a separator between two of them.
abbrev pub join : ℕ → Text → List Text → Text
join x t [] = t
join x t (s ∷ ss) = t ++ x ∷ join x s ss

split_absent : (x : ℕ) (s : Text) → Avoids x s → split x s ≡ s ∷ []
unfolding split
split_absent x [] h = refl
split_absent x (c ∷ s) h = rw (split_absent x s h.1) (ground arith)

split-append : (x : ℕ) (a s : Text) → Avoids x a → split x (a ++ x ∷ s) ≡ a ∷ split x s
unfolding split
split-append x [] s h = ground arith
split-append x (c ∷ a) s h = rw (split-append x a s h.1) (ground arith)

pub split-join :
    (x : ℕ) (t : Text) (ss : List Text)
    → Avoids x t
    → All (Avoids x) ss
    → split x (join x t ss) ≡ t ∷ ss
split-join x t [] h k = split_absent x t h
split-join x t (s ∷ ss) h k =
    split-append x t (join x s ss) h ∙ ap (◌∷◌ t) (split-join x s ss k.0 k.1)

-- A byte of a parameter's name that is neither changed nor cut away.
abbrev pub IsNameByte : ℕ → Type 0
IsNameByte c = (c < 128) × (lower_ascii c ≡ c) × (is_space c ≡ false) × (c ≢ b'=') × (c ≢ b';')

abbrev pub IsName : Text → Type 0
IsName s = All IsNameByte s

IsName-ascii : (s : Text) → IsName s → all is_ascii s ≡ true
unfolding is_ascii
IsName-ascii [] h = refl
IsName-ascii (c ∷ s) h = ground (arith, IsName-ascii s h.1)

map-lower_ascii : (s : Text) → IsName s → map lower_ascii s ≡ s
map-lower_ascii [] h = refl
map-lower_ascii (c ∷ s) h = cc (h.0.1, map-lower_ascii s h.1)

trim_left-IsName : (s : Text) → IsName s → trim_left s ≡ s
unfolding trim_left
trim_left-IsName [] h = refl
trim_left-IsName (c ∷ s) h = rw (h.0.2)

reverse-IsName : (s : Text) → IsName s → IsName (reverse s)
reverse-IsName [] h = tt
reverse-IsName (c ∷ s) h =
    rw (reverse-append (c ∷ []) s)
      (All-append IsNameByte (reverse s) (c ∷ []) (reverse-IsName s h.1) (h.0, tt))

pub to_lower-trim_space : (u : Unicode) (s : Text) → IsName s → to_lower u (trim_space u s) ≡ s
unfolding to_lower trim_space
to_lower-trim_space u s h = rw (IsName-ascii s h) (
    rw (trim_left-IsName s h) (
      rw (trim_left-IsName (reverse s) (reverse-IsName s h))
        (rw (reverse-reverse s) (rw (IsName-ascii s h) (map-lower_ascii s h)))))

pub IsName-Avoids : (s : Text) → IsName s → Avoids b'=' s × Avoids b';' s
IsName-Avoids [] h = (tt, tt)
IsName-Avoids (c ∷ s) h = let (e, sc) = IsName-Avoids s h.1 in ((h.0.3, e), (h.0.4, sc))
