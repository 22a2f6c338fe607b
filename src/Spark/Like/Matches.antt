-- ===== src/Spark/Like/Matches.antt =====
-- What a SQL LIKE pattern means, with no search order in it.
use adbc_driver_spark.Base.{ℕ, true, ◌≡◌, ◌≢◌, refl, [], ◌∷◌, arith}
use adbc_driver_spark.Base.Text.{Text, Unicode}
use adbc_driver_spark.Spark.Like.{single, only_percents}

-- '%' stands for any run of runes, '_' for any rune, every other rune for itself up to case.
pub data Matches (u : Unicode) : Text → Text → Type 0 where
  done : Matches u [] []
  one :
      {r c : ℕ} {p s : Text}
      → r ≢ b'%'
      → single u r c ≡ true
      → Matches u p s
      → Matches u (r ∷ p) (c ∷ s)
  skip : {r : ℕ} {p s : Text} → r ≡ b'%' → Matches u p s → Matches u (r ∷ p) s
  more : {r c : ℕ} {p s : Text} → r ≡ b'%' → Matches u (r ∷ p) s → Matches u (r ∷ p) (c ∷ s)

-- `p` matches some end of `s`.
pub data Later (u : Unicode) (p : Text) : Text → Type 0 where
  here : {s : Text} → Matches u p s → Later u p s
  after : {c : ℕ} {s : Text} → Later u p s → Later u p (c ∷ s)

module _ {u : Unicode} where
  pub Later-percent : {r : ℕ} {p s : Text} → r ≡ b'%' → Later u p s → Matches u (r ∷ p) s
  Later-percent e (here d) = skip e d
  Later-percent e (after l) = more e (Later-percent e l)

  pub percent-Later : {r : ℕ} {p s : Text} → r ≡ b'%' → Matches u (r ∷ p) s → Later u p s
  percent-Later e (one n t d) = absurd (n e)
  percent-Later e (skip _ d) = here d
  percent-Later e (more _ d) = after (percent-Later e d)

  pub Later-Later : {r : ℕ} {p s : Text} → r ≡ b'%' → Later u (r ∷ p) s → Later u p s
  Later-Later e (here d) = percent-Later e d
  Later-Later e (after l) = after (Later-Later e l)

  pub Later-nil : {p : Text} → Later u p [] → Matches u p []
  Later-nil (here d) = d

  pub Later-tail : {p s : Text} {c : ℕ} → Later u p (c ∷ s) → ¬ Matches u p (c ∷ s) → Later u p s
  Later-tail (here d) n = absurd (n d)
  Later-tail (after l) n = l

  pub one_inv :
      {r c : ℕ} {p s : Text}
      → r ≢ b'%'
      → Matches u (r ∷ p) (c ∷ s)
      → (single u r c ≡ true) × Matches u p s
  one_inv n (one _ t d) = (t, d)
  one_inv n (skip e _) = absurd (n e)
  one_inv n (more e _) = absurd (n e)

  -- Wherever `r` matches, the pattern behind it begins after the first rune.
  pub Later-single :
      {r : ℕ} {p : Text} {c : ℕ} (s : Text) → r ≢ b'%' → Later u (r ∷ p) (c ∷ s) → Later u p s
  Later-single s n (here d) = here (one_inv n d).1
  Later-single [] n (after (here (skip e _))) = absurd (n e)
  Later-single (x ∷ s) n (after l) = after (Later-single s n l)

  pub Matches→only_percents : {p : Text} → Matches u p [] → only_percents p ≡ true
  unfolding only_percents
  Matches→only_percents done = refl
  Matches→only_percents (skip e d) = ground (arith, Matches→only_percents d)

pub only_percents→Matches : (u : Unicode) (p : Text) → only_percents p ≡ true → Matches u p []
unfolding only_percents
only_percents→Matches u [] h = done
only_percents→Matches u (r ∷ p) h = skip (ground arith) (only_percents→Matches u p (ground arith))
