-- ===== src/Spark/Params/Integers.antt =====
-- Integer parameters arrive unchanged, in a literal that is wide enough.
use mathlib.Core.Path.{subst}
use adbc_driver_spark.Base.{
  ℕ, ◌<◌, ◌-◌, ltb, ◌≡◌, refl, inl, inr, Bool-cases, Option, none, some, ok, err, arith,
}
use adbc_driver_spark.Adbc.{Go}
use adbc_driver_spark.Base.Text.{Text}
use adbc_driver_spark.Base.Int.{ℤ, pos, negsuc, two63}
use adbc_driver_spark.Spark.Params.{Value, Literal, value_to_literal, uint64_literal}

-- The integer that a value of an integer array stands for.
abbrev pub value_int : Value → Option ℤ
value_int (Value.int8 v) = some v
value_int (Value.int16 v) = some v
value_int (Value.int32 v) = some v
value_int (Value.int64 v) = some v
value_int (Value.uint8 v) = some (pos v)
value_int (Value.uint16 v) = some (pos v)
value_int (Value.uint32 v) = some (pos v)
value_int (Value.uint64 v) = some (pos v)
value_int _ = none

abbrev pub literal_int : Literal → Option ℤ
literal_int (Literal.byte v) = some v
literal_int (Literal.short v) = some v
literal_int (Literal.integer v) = some v
literal_int (Literal.long v) = some v
literal_int _ = none

abbrev pub Within : ℕ → ℤ → Type 0
Within n (pos m) = m < n
Within n (negsuc m) = m < n

-- What the width of an Arrow array admits.
abbrev pub ValueFits : Value → Type 0
ValueFits (Value.int8 v) = Within 128 v
ValueFits (Value.int16 v) = Within 32768 v
ValueFits (Value.int32 v) = Within 2147483648 v
ValueFits (Value.int64 v) = Within 9223372036854775808 v
ValueFits (Value.uint8 v) = v < 256
ValueFits (Value.uint16 v) = v < 65536
ValueFits (Value.uint32 v) = v < 4294967296
ValueFits (Value.uint64 v) = v < 18446744073709551616
ValueFits _ = Unit

-- What Spark's BYTE, SHORT, INT and BIGINT admit.
abbrev pub LiteralFits : Literal → Type 0
LiteralFits (Literal.byte v) = Within 128 v
LiteralFits (Literal.short v) = Within 32768 v
LiteralFits (Literal.integer v) = Within 2147483648 v
LiteralFits (Literal.long v) = Within 9223372036854775808 v
LiteralFits _ = Unit

-- The literal carries the integer and has room for it.
abbrev pub Carries : ℤ → Literal → Type 0
Carries z lit = (literal_int lit ≡ some z) × LiteralFits lit

-- The outcome of a conversion is right for the integer: a literal that carries it, or an error where
-- no literal could.
abbrev pub Carried : ℤ → Go Literal → Type 0
Carried z (ok lit) = Carries z lit
Carried z (err e) = ¬ Within two63 z

uint64_literal-Carried : (n : ℕ) {z : ℤ} → some (pos n) ≡ some z → Carried z (uint64_literal n)
unfolding uint64_literal
uint64_literal-Carried n {z} e =
    let same : pos n ≡ z = cc in
    subst (λ x. Carried x (uint64_literal n)) same
      (elim (Bool-cases (ltb (two63 - 1) n)) [
        | inl big ↦ rw big (λ h. ground arith)
        | inr small ↦ rw small (refl, ground arith)
      ])

-- A bound integer reaches Spark as itself, in a literal type that holds it, for every Arrow integer
-- type; only where the integer exceeds 64 signed bits does the call fail.
pub value_to_literal-Carried :
    (decimal_text : ℤ → ℤ → Text) (v : Value) {z : ℤ}
    → ValueFits v
    → value_int v ≡ some z
    → Carried z (value_to_literal decimal_text v)
unfolding value_to_literal
value_to_literal-Carried dt (Value.int8 v) f e = (e, f)
value_to_literal-Carried dt (Value.int16 v) f e = (e, f)
value_to_literal-Carried dt (Value.int32 v) f e = (e, f)
value_to_literal-Carried dt (Value.int64 v) f e = (e, f)
value_to_literal-Carried dt (Value.uint8 v) f e = (e, omega arith)
value_to_literal-Carried dt (Value.uint16 v) f e = (e, omega arith)
value_to_literal-Carried dt (Value.uint32 v) f e = (e, omega arith)
value_to_literal-Carried dt (Value.uint64 v) f e = uint64_literal-Carried v e
value_to_literal-Carried dt _ f e = absurd cc
