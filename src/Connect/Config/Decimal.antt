-- ===== src/Connect/Config/Decimal.antt =====
-- Printing a number in base 10 and reading it back.
use adbc_driver_spark.Base.{
  ℕ, zero, suc, ◌+◌, ◌/◌, ◌%◌, ◌<◌, true, false, ◌≡◌, ◌≢◌, refl, ◌∙◌, ap, some, [], ◌∷◌, arith, All,
}
use adbc_driver_spark.Base.Text.{Text}
use adbc_driver_spark.Base.Int.{ℤ, pos, negsuc, IsInt64}
use adbc_driver_spark.Connect.Config.{
  is_digit, digits_value, unsigned, in_range, atoi, digits_onto, decimal,
}

abbrev pub IsDigits : Text → Type 0
IsDigits s = All (λ c. is_digit c ≡ true) s

digits_value-digits_onto :
    (f n : ℕ) (acc : Text)
    → n < f
    → IsDigits acc
    → digits_value 0 (digits_onto f n acc) ≡ digits_value n acc
unfolding digits_value digits_onto
digits_value-digits_onto zero n acc h a = elim h [ ]
digits_value-digits_onto (suc f) n acc h a =
    ground (arith, digits_value-digits_onto f (n / 10) ((b'0' + n % 10) ∷ acc))

pub digits_onto-IsDigits :
    (f n : ℕ) (acc : Text) → n < f → IsDigits acc → IsDigits (digits_onto f n acc)
unfolding digits_onto
digits_onto-IsDigits zero n acc h a = elim h [ ]
digits_onto-IsDigits (suc f) n acc h a =
    ground (arith, digits_onto-IsDigits f (n / 10) ((b'0' + n % 10) ∷ acc))

abbrev pub IsCons : Text → Type 0
IsCons [] = ⊥
IsCons (_ ∷ _) = Unit

pub digits_onto-IsCons : (f n : ℕ) (acc : Text) → n < f → IsCons (digits_onto f n acc)
unfolding digits_onto
digits_onto-IsCons zero n acc h = elim h [ ]
digits_onto-IsCons (suc f) n acc h =
    ground (arith, digits_onto-IsCons f (n / 10) ((b'0' + n % 10) ∷ acc))

unsigned-digits : (s : Text) (n : ℕ) → IsCons s → digits_value 0 s ≡ some n → unsigned s ≡ some n
unfolding unsigned
unsigned-digits [] n h e = absurd h
unsigned-digits (c ∷ s) n h e = e

unsigned-digits_onto : (n : ℕ) → unsigned (digits_onto (suc n) n []) ≡ some n
unsigned-digits_onto n =
    unsigned-digits (digits_onto (suc n) n []) n (digits_onto-IsCons (suc n) n [] (omega arith))
      (digits_value-digits_onto (suc n) n [] (omega arith) tt ∙ unfold digits_value in refl)

atoi-digits : (s : Text) → IsDigits s → IsCons s → atoi s ≡ in_range false (unsigned s)
unfolding atoi
atoi-digits [] d h = absurd h
atoi-digits (c ∷ s) d h = ground arith

atoi_minus : (s : Text) → atoi (b'-' ∷ s) ≡ in_range true (unsigned s)
unfolding atoi
atoi_minus s = refl

-- Every 64-bit integer that is printed by "%d" is read back by `atoi`.
pub atoi-decimal : (z : ℤ) → IsInt64 z → atoi (decimal z) ≡ some z
unfolding decimal
atoi-decimal (pos n) h =
    atoi-digits _ (digits_onto-IsDigits (suc n) n [] (omega arith) tt)
      (digits_onto-IsCons (suc n) n [] (omega arith))
    ∙ ap (in_range false) (unsigned-digits_onto n)
    ∙ ground arith
atoi-decimal (negsuc n) h =
    atoi_minus (digits_onto (suc (suc n)) (suc n) [])
    ∙ ap (in_range true) (unsigned-digits_onto (suc n))
    ∙ ground arith

-- The digits and the sign.
abbrev pub IsNumeral : ℕ → Type 0
IsNumeral c = (c ≢ b':') × (c ≢ b';') × (c ≢ b'/')

IsDigits-IsNumeral : (s : Text) → IsDigits s → All IsNumeral s
IsDigits-IsNumeral [] h = tt
IsDigits-IsNumeral (c ∷ s) h = (ground arith, IsDigits-IsNumeral s h.1)

pub decimal-IsNumeral : (z : ℤ) → All IsNumeral (decimal z)
unfolding decimal
decimal-IsNumeral (pos n) =
    IsDigits-IsNumeral _ (digits_onto-IsDigits (suc n) n [] (omega arith) tt)
decimal-IsNumeral (negsuc n) = (
  omega arith,
  IsDigits-IsNumeral _ (digits_onto-IsDigits (suc (suc n)) (suc n) [] (omega arith) tt),
)

pub decimal-IsCons : (z : ℤ) → IsCons (decimal z)
unfolding decimal
decimal-IsCons (pos n) = digits_onto-IsCons (suc n) n [] (omega arith)
decimal-IsCons (negsuc n) = tt
