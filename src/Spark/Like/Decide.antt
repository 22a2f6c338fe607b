-- ===== src/Spark/Like/Decide.antt =====
-- The loop of `likeMatch` stops, and answers rightly on every name that holds no '%'.
use adbc_driver_spark.Base.{
  ℕ, zero, suc, ◌+◌, ◌*◌, ◌≤◌, ◌<◌, Bool, true, false, ◌≡◌, ◌≢◌, ◌↔◌, refl, Option, none, some, [],
  ◌∷◌, arith, ◌==◌, ==_iff, length, All, inl, inr, Bool-cases,
}
use adbc_driver_spark.Base.Text.{Text, Unicode}
use adbc_driver_spark.Spark.Like.{
  single, only_percents, Star, Round, back_to_star, like_loop, like_fuel, equal_fold, answer,
  like_match,
}
use adbc_driver_spark.Spark.Like.Fold.{single_percent}
use adbc_driver_spark.Spark.Like.Matches.{
  Matches, done, one, Later, here, after, Later-percent, Later-Later, Later-nil, Later-tail,
  one_inv, Later-single, Matches→only_percents, only_percents→Matches,
}

abbrev pub HasNoPercent : Text → Type 0
HasNoPercent s = All (λ c. c ≢ b'%') s

-- The run ended with an answer, and the answer is right about `G`.
abbrev pub Decides : Type 0 → Option Bool → Type 0
Decides G none = ⊥
Decides G (some true) = G
Decides G (some false) = ¬ G

Decides-some : {G : Type 0} (b : Bool) → (b ≡ true → G) → (G → b ≡ true) → Decides G (some b)
Decides-some true f g = f refl
Decides-some false f g = λ x. cc (g x)

-- `G` is the question at the start; every pattern in play is shorter than `k`.
module _ (u : Unicode) (percent_alone : u.simple_fold b'%' ≡ b'%') (G : Type 0) (k : ℕ) where
  -- What the star in hand means; `m` bounds the text that it may still give up.
  abbrev Saved : ℕ → Text → Text → Star → Type 0
  Saved m p s none = G → Matches u p s
  Saved m p s (some (sp, ss)) =
      (G → Later u sp ss)
      × (Later u sp ss → G)
      × (Matches u sp ss → Matches u p s)
      × HasNoPercent ss
      × (length s ≤ length ss)
      × (length ss ≤ m)
      × (length sp < k)

  record Inv (f m : ℕ) (p s : Text) (star : Star) : Type 0 where
    sound : Matches u p s → G
    complete : G → Later u p s
    saved : Saved m p s star
    clean : HasNoPercent s
    text_bound : length s ≤ m
    pattern_bound : length p < k
    fuel : m * k + length p < f

  -- A fresh start behind a star.
  Inv-star :
      {f m : ℕ} {p s : Text}
      → (G → Later u p s)
      → (Later u p s → G)
      → HasNoPercent s
      → length s ≤ m
      → length p < k
      → m * k + length p < f
      → Inv f m p s (some (p, s))
  Inv-star to from cl hs hp hf = record {
    sound = λ d. from (here d);
    complete = to;
    saved = (to, from, λ d. d, cl, omega arith, hs, hp);
    clean = cl;
    text_bound = hs;
    pattern_bound = hp;
    fuel = hf;
  }

  Saved-single :
      (m : ℕ) {r : ℕ} (c : ℕ) (p s : Text) (star : Star)
      → r ≢ b'%'
      → Saved m (r ∷ p) (c ∷ s) star
      → Saved m p s star
  Saved-single m c p s none n h = λ g. (one_inv n (h g)).1
  Saved-single m c p s (some (sp, ss)) n (to, from, down, cl, shorter, hs, hp) =
      (to, from, λ d. (one_inv n (down d)).1, cl, omega arith, hs, hp)

  Inv-single :
      {f m r c : ℕ} {p s : Text} {star : Star}
      → r ≢ b'%'
      → single u r c ≡ true
      → Inv (suc f) m (r ∷ p) (c ∷ s) star
      → Inv f m p s star
  Inv-single {m} {c} {p} {s} {star} n t i = record {
    sound = λ d. i.sound (one n t d);
    complete = λ g. Later-single s n (i.complete g);
    saved = Saved-single m c p s star n i.saved;
    clean = i.clean.1;
    text_bound = omega arith;
    pattern_bound = omega arith;
    fuel = omega arith;
  }

  -- After a mismatch the star has to take a rune, which lowers `m` and pays for the pattern.
  back_to_star-Decides :
      {f c : ℕ} {p s : Text} (m : ℕ) (star : Star) (next : Round)
      → ((m' : ℕ) (p' s' : Text) (star' : Star)
          → Inv f m' p' s' star'
          → Decides G (next p' s' star'))
      → Inv (suc f) m p (c ∷ s) star
      → ¬ Matches u p (c ∷ s)
      → Decides G (back_to_star star next)
  unfolding back_to_star
  back_to_star-Decides m none next ih i differs = λ g. differs (i.saved g)
  back_to_star-Decides m (some (sp, [])) next ih i differs = absurd (omega arith)
  back_to_star-Decides zero (some (sp, x ∷ ss)) next ih i differs = absurd (omega arith)
  back_to_star-Decides (suc m) (some (sp, x ∷ ss)) next ih i differs =
      let (to, from, down, cl, _, _, _) = i.saved in
      ih m sp ss (some (sp, ss)) (
        Inv-star (λ g. Later-tail (to g) (λ d. differs (down d))) (λ l. from (after l)) cl.1
          (omega arith) (omega arith) (omega arith))

  like_loop-Decides :
      (f m : ℕ) (p s : Text) (star : Star) → Inv f m p s star → Decides G (like_loop u f p s star)
  unfolding like_loop
  like_loop-Decides zero m p s star i = absurd (omega arith)
  like_loop-Decides (suc f) m p [] star i =
      Decides-some (only_percents p) (λ h. i.sound (only_percents→Matches u p h))
        (λ g. Matches→only_percents (Later-nil (i.complete g)))
  like_loop-Decides (suc f) m [] (c ∷ s) star i =
      back_to_star-Decides m star (like_loop u f) (like_loop-Decides f) i (λ d. elim d [ ])
  like_loop-Decides (suc f) m (r ∷ p) (c ∷ s) star i = elim (Bool-cases (r == b'%')) [
    | inl wild ↦
        let e = (==_iff r b'%').0 wild in
        rw (single_percent u r c percent_alone e i.clean.0, wild)
          (like_loop-Decides f m p (c ∷ s) (some (p, c ∷ s)) (
            Inv-star (λ g. Later-Later e (i.complete g)) (λ l. i.sound (Later-percent e l)) i.clean
              i.text_bound (omega arith) (omega arith)))
    | inr plain ↦
        let n : r ≢ b'%' = ground arith in
        elim (Bool-cases (single u r c)) [
          | inl t ↦ rw t (like_loop-Decides f m p s star (Inv-single n t i))
          | inr t ↦
              rw (t, plain)
                (back_to_star-Decides m star (like_loop u f) (like_loop-Decides f) i
                  (λ d. cc ((one_inv n d).0)))
        ]
  ]

-- On a name with no '%' the loop stops within its fuel with the right answer, whatever the pattern.
pub like_loop-like_fuel :
    (u : Unicode) (p s : Text)
    → u.simple_fold b'%' ≡ b'%'
    → HasNoPercent s
    → Decides (Matches u p s) (like_loop u (like_fuel p s) p s none)
like_loop-like_fuel u p s alone cl =
    like_loop-Decides u alone (Matches u p s) (length p + 1) _ (length s) p s none (record {
      sound = λ d. d;
      complete = here;
      saved = λ d. d;
      clean = cl;
      text_bound = omega arith;
      pattern_bound = omega arith;
      fuel = omega arith;
    })

Decides-answer : {G : Type 0} (r : Option Bool) → Decides G r → (answer r ≡ true) ↔ G
Decides-answer none h = absurd h
Decides-answer (some true) h = (λ _. h, λ _. refl)
Decides-answer (some false) h = (λ e. cc, λ g. absurd (h g))

-- If '%' has no other case, then `like_match` accepts a name without '%' exactly when the name
-- matches the SQL LIKE pattern. The fuel of the model is enough.
pub like_match_iff :
    (u : Unicode) (p s : Text)
    → u.simple_fold b'%' ≡ b'%'
    → HasNoPercent s
    → (like_match u p s ≡ true) ↔ Matches u p s
unfolding like_match
like_match_iff u p s alone cl = Decides-answer _ (like_loop-like_fuel u p s alone cl)

like_loop_percent_name :
    (u : Unicode) (c : ℕ) (s : Text) (f : ℕ)
    → 2 ≤ f
    → like_loop u f (b'%' ∷ []) (b'%' ∷ c ∷ s) none ≡ some false
unfolding like_loop back_to_star single equal_fold
like_loop_percent_name u c s zero h = absurd (omega arith)
like_loop_percent_name u c s (suc zero) h = absurd (omega arith)
like_loop_percent_name u c s (suc (suc f)) h = refl

Later-nil_pattern : (u : Unicode) (s : Text) → Later u [] s
Later-nil_pattern u [] = here done
Later-nil_pattern u (x ∷ s) = after (Later-nil_pattern u s)

-- The pattern '%' matches every name, but `like_match` refuses each name of two runes or more that
-- begins with '%': the rune of the pattern is taken for a literal before it is seen as a wildcard.
pub like_match_percent_name :
    (u : Unicode) (name : Text) (c : ℕ) (s : Text)
    → Matches u (b'%' ∷ []) name × (like_match u (b'%' ∷ []) (b'%' ∷ c ∷ s) ≡ false)
unfolding like_match
like_match_percent_name u name c s = (
  Later-percent refl (Later-nil_pattern u name),
  rw (like_loop_percent_name u c s (like_fuel (b'%' ∷ []) (b'%' ∷ c ∷ s)) (omega arith)),
)
