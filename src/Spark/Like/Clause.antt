-- ===== src/Spark/Like/Clause.antt =====
-- The LIKE clause that `likeClause` sends to Spark, against the filter of the client.
use adbc_driver_spark.Base.{
  ℕ, ◌<◌, Bool, true, ◌≡◌, ◌≢◌, ◌⊎◌, ◌↔◌, inl, inr, refl, sym, ◌∙◌, Option, none, some, [], ◌∷◌,
  ◌++◌, ◌≤◌, arith, ◌==◌, if◌then◌else◌, All, Option-cases,
}
use mathlib.Core.Path.{subst}
use adbc_driver_spark.Base.Text.{Text, Unicode, codes, lower_ascii}
use adbc_driver_spark.Spark.Like.{
  single, equal_fold, is_word, like_rune, cons?, like_body, like_clause,
}
use adbc_driver_spark.Spark.Like.Matches.{Matches, done, one, skip, more}

-- One rune of a name against one rune of Spark's pattern that is not '*'. As a regex '.' is any
-- rune; the rest is compared ignoring the case of ASCII letters.
abbrev pub spark_single : ℕ → ℕ → Bool
spark_single b c = if b == b'.' then true else lower_ascii b == lower_ascii c

-- The pattern syntax of SHOW … LIKE as the comment on `likeClause` describes it.
pub data SparkMatches : Text → Text → Type 0 where
  end : SparkMatches [] []
  rune :
      {b c : ℕ} {bs s : Text}
      → b ≢ b'*'
      → spark_single b c ≡ true
      → SparkMatches bs s
      → SparkMatches (b ∷ bs) (c ∷ s)
  none_left : {b : ℕ} {bs s : Text} → b ≡ b'*' → SparkMatches bs s → SparkMatches (b ∷ bs) s
  any : {b c : ℕ} {bs s : Text} → b ≡ b'*' → SparkMatches (b ∷ bs) s → SparkMatches (b ∷ bs) (c ∷ s)

data Sends : Text → Text → Type 0 where
  nil : Sends [] []
  cons : {r b : ℕ} {p bs : Text} → like_rune r ≡ some b → Sends p bs → Sends (r ∷ p) (b ∷ bs)

cons?-eq-some :
    (o : Option ℕ) (t : Option Text) {bs : Text}
    → cons? o t ≡ some bs
    → (b : ℕ) × (rest : Text) × (o ≡ some b) × (t ≡ some rest) × (b ∷ rest ≡ bs)
cons?-eq-some none t h = cc
cons?-eq-some (some b) none h = cc
cons?-eq-some (some b) (some rest) h = (b, rest, refl, refl, cc)

like_body-Sends : (p : Text) {bs : Text} → like_body p ≡ some bs → Sends p bs
unfolding like_body
like_body-Sends [] {bs} h = let e : [] ≡ bs = cc in subst (λ t. Sends [] t) e nil
like_body-Sends (r ∷ p) h =
    let (b, rest, sent, later, e) = cons?-eq-some (like_rune r) (like_body p) h in
    subst (λ t. Sends (r ∷ p) t) e (cons sent (like_body-Sends p later))

-- What `unicode.SimpleFold` says of two ASCII runes: only the two cases of a letter are one orbit.
abbrev pub FoldsAscii : Unicode → Type 0
FoldsAscii u = (a b : ℕ) → a < 128 → b < 128 → equal_fold u a b ≡ (lower_ascii a == lower_ascii b)

abbrev pub IsAsciiText : Text → Type 0
IsAsciiText s = All (λ c. c < 128) s

like_rune_star : (r b : ℕ) → like_rune r ≡ some b → r ≡ b'%' → b ≡ b'*'
unfolding like_rune is_word
like_rune_star r b h e = ground arith

like_rune_not_star : (r b : ℕ) → like_rune r ≡ some b → r ≢ b'%' → b ≢ b'*'
unfolding like_rune is_word
like_rune_not_star r b h n = ground arith

like_rune_from_star : (r b : ℕ) → like_rune r ≡ some b → b ≡ b'*' → r ≡ b'%'
unfolding like_rune is_word
like_rune_from_star r b h e = ground arith

like_rune_ascii : (r b : ℕ) → like_rune r ≡ some b → r < 128
unfolding like_rune is_word
like_rune_ascii r b h = ground arith

-- One rune means the same on both sides.
like_rune-single :
    (u : Unicode) (r b c : ℕ)
    → FoldsAscii u
    → like_rune r ≡ some b
    → r ≢ b'%'
    → c < 128
    → spark_single b c ≡ single u r c
unfolding like_rune is_word single lower_ascii
like_rune-single u r b c fold h n lt = ground (arith, fold r c)

Matches→SparkMatches :
    (u : Unicode) {p bs s : Text}
    → FoldsAscii u
    → Sends p bs
    → IsAsciiText s
    → Matches u p s
    → SparkMatches bs s
Matches→SparkMatches u fold nil a done = end
Matches→SparkMatches u fold (cons {r} {b} h t) a (one n e d) =
    rune (like_rune_not_star r b h n) (like_rune-single u r b _ fold h n a.0 ∙ e)
      (Matches→SparkMatches u fold t a.1 d)
Matches→SparkMatches u fold (cons {r} {b} h t) a (skip e d) =
    none_left (like_rune_star r b h e) (Matches→SparkMatches u fold t a d)
Matches→SparkMatches u fold (cons {r} {b} h t) a (more e d) =
    any (like_rune_star r b h e) (Matches→SparkMatches u fold (cons h t) a.1 d)

SparkMatches→Matches :
    (u : Unicode) {p bs s : Text}
    → FoldsAscii u
    → Sends p bs
    → IsAsciiText s
    → SparkMatches bs s
    → Matches u p s
SparkMatches→Matches u fold nil a end = done
SparkMatches→Matches u fold (cons {r} {b} h t) a (rune n e d) =
    let m : r ≢ b'%' = λ x. n (like_rune_star r b h x) in
    one m (sym (like_rune-single u r b _ fold h m a.0) ∙ e) (SparkMatches→Matches u fold t a.1 d)
SparkMatches→Matches u fold (cons {r} {b} h t) a (none_left e d) =
    skip (like_rune_from_star r b h e) (SparkMatches→Matches u fold t a d)
SparkMatches→Matches u fold (cons {r} {b} h t) a (any e d) =
    more (like_rune_from_star r b h e) (SparkMatches→Matches u fold (cons h t) a.1 d)

-- When `like_body` sends a pattern at all, Spark's pattern and the ADBC pattern match the same ASCII
-- names, so the clause only narrows the listing.
pub like_body_iff :
    (u : Unicode) (p bs s : Text)
    → FoldsAscii u
    → like_body p ≡ some bs
    → IsAsciiText s
    → SparkMatches bs s ↔ Matches u p s
like_body_iff u p bs s fold h a =
    let t = like_body-Sends p h in
    (SparkMatches→Matches u fold t a, Matches→SparkMatches u fold t a)

-- ASCII letters and digits, '*' and '.': they need no quoting inside a SQL string literal.
abbrev pub IsUnquoted : ℕ → Type 0
IsUnquoted b =
    ((b'a' ≤ b) × (b ≤ b'z'))
    ⊎ ((b'A' ≤ b) × (b ≤ b'Z'))
    ⊎ ((b'0' ≤ b) × (b ≤ b'9'))
    ⊎ (b ≡ b'*')
    ⊎ (b ≡ b'.')

like_rune-IsUnquoted : (r b : ℕ) → like_rune r ≡ some b → IsUnquoted b
unfolding like_rune is_word
like_rune-IsUnquoted r b h = ground arith

Sends-IsUnquoted : {p bs : Text} → Sends p bs → All IsUnquoted bs
Sends-IsUnquoted nil = tt
Sends-IsUnquoted (cons {r} {b} h t) = (like_rune-IsUnquoted r b h, Sends-IsUnquoted t)

-- Whatever the pattern, the clause is empty, or LIKE with one literal in single quotes that holds only
-- ASCII letters, digits, '*' and '.'; so no pattern can end the literal early.
pub like_clause_form :
    (pattern : Option Text)
    → (like_clause pattern ≡ [])
      ⊎ ((bs : Text) × (like_clause pattern ≡ codes " LIKE '" ++ (bs ++ b'\'' ∷ []))
          × All IsUnquoted bs)
unfolding like_clause
like_clause_form none = inl refl
like_clause_form (some []) = inl refl
like_clause_form (some (r ∷ p)) = elim (Option-cases (like_body (r ∷ p))) [
  | inl e ↦ inl (rw e)
  | inr (bs, e) ↦ inr (bs, rw e, Sends-IsUnquoted (like_body-Sends (r ∷ p) e))
]
