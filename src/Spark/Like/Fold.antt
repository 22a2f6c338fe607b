-- ===== src/Spark/Like/Fold.antt =====
-- `equalFold` walks one orbit of `unicode.SimpleFold`.
use adbc_driver_spark.Base.{ℕ, zero, suc, ◌<◌, true, false, ◌≡◌, ◌≢◌, ◌⊎◌, ◌↔◌, refl, arith}
use adbc_driver_spark.Base.Text.{Unicode}
use adbc_driver_spark.Spark.Like.{equal_fold, fold_loop, fold_limit, single}

-- The orbit of `a`, entered at `r`, is back at `a` after n more steps, and not before.
abbrev pub Returns : Unicode → ℕ → ℕ → ℕ → Type 0
Returns u a r zero = r ≡ a
Returns u a r (suc n) = (r ≢ a) × Returns u a (u.simple_fold r) n

-- `b` is among the n runes of the orbit from `r` on.
abbrev pub Among : Unicode → ℕ → ℕ → ℕ → Type 0
Among u b r zero = ⊥
Among u b r (suc n) = (r ≡ b) ⊎ Among u b (u.simple_fold r) n

fold_loop_iff :
    (u : Unicode) (a b : ℕ) (f n r : ℕ)
    → n < f
    → Returns u a r n
    → (fold_loop f u a b r ≡ true) ↔ Among u b r n
unfolding fold_loop
fold_loop_iff u a b zero n r h back = elim h [ ]
fold_loop_iff u a b (suc f) zero r h back = ground arith
fold_loop_iff u a b (suc f) (suc n) r h back =
    ground (arith, fold_loop_iff u a b f n (u.simple_fold r))

-- Two runes are equal up to case exactly when they are the same rune, or the second is one of the
-- n further runes of the first one's orbit, for an orbit that closes after n + 1 steps, n below the
-- fuel.
pub equal_fold_iff :
    (u : Unicode) (a b n : ℕ)
    → n < fold_limit
    → Returns u a (u.simple_fold a) n
    → (equal_fold u a b ≡ true) ↔ ((a ≡ b) ⊎ Among u b (u.simple_fold a) n)
unfolding equal_fold
equal_fold_iff u a b n h back =
    ground (arith, fold_loop_iff u a b fold_limit n (u.simple_fold a) h back)

fold_loop_stop : (u : Unicode) (a b f r : ℕ) → r ≡ a → fold_loop f u a b r ≡ false
unfolding fold_loop
fold_loop_stop u a b zero r e = refl
fold_loop_stop u a b (suc f) r e = ground arith

-- A rune with no other case is equal to itself alone.
pub equal_fold_alone :
    (u : Unicode) (a b : ℕ) → u.simple_fold a ≡ a → a ≢ b → equal_fold u a b ≡ false
unfolding equal_fold
equal_fold_alone u a b e n = ground (arith, fold_loop_stop u a b fold_limit (u.simple_fold a) e)

pub single_percent :
    (u : Unicode) (r c : ℕ) → u.simple_fold b'%' ≡ b'%' → r ≡ b'%' → c ≢ b'%' → single u r c ≡ false
unfolding single
single_percent u r c e p n = ground (arith, equal_fold_alone u b'%' c e)

pub single_self : (u : Unicode) (c : ℕ) → single u c c ≡ true
unfolding single equal_fold
single_self u c = ground arith
