-- ===== src/Spark/Params.antt =====
-- driver/spark/params.go: `columnToLiteral` and `timestampToMicros`. A float is its bit pattern, which
-- the source only copies.
pub mod Integers
pub mod Time
use adbc_driver_spark.Base.{
  ℕ, ◌-◌, Bool, Option, none, some, List, [], ◌∷◌, ok, err, ◌>>=◌, ltb, if◌then◌else◌, get_elem?,
  is_nil,
}
use mathlib.Core.Option
use adbc_driver_spark.Base.Text.{Text, codes}
use adbc_driver_spark.Base.Int.{ℤ, pos, times, quot, wrap32, wrap64, two63}
use adbc_driver_spark.Adbc.{Status, plain, format, count, adbc_error, Go}

-- arrow.TimeUnit
pub data TimeUnit : Type 0 where
  second millisecond microsecond nanosecond : TimeUnit
  other_unit : ℕ → TimeUnit

-- arrow.TimestampType
pub record TimestampType : Type 0 where
  pub unit : TimeUnit
  pub time_zone : Text

-- A value of an Arrow array, one constructor for each case of the type switch: the array's type is
-- that of its values. `timestamp` has the array's data type, `none` if it is no TimestampType;
-- a decimal has its unscaled value, precision and scale; `unsupported` names the array's type.
pub data Value : Type 0 where
  boolean : Bool → Value
  int8 int16 int32 int64 : ℤ → Value
  uint8 uint16 uint32 uint64 : ℕ → Value
  float32 float64 : ℕ → Value
  string large_string binary large_binary : Text → Value
  date32 date64 : ℤ → Value
  timestamp : ℤ → Option TimestampType → Value
  decimal128 decimal256 : ℤ → ℤ → ℤ → Value
  unsupported : Text → Value

-- arrow.Array: `none` is a null.
abbrev pub Column : Type 0
Column = List (Option Value)

-- connect.Expression_Literal
pub data Literal : Type 0 where
  null : Literal
  boolean : Bool → Literal
  byte short integer long : ℤ → Literal
  float double : ℕ → Literal
  string binary : Text → Literal
  date timestamp timestamp_ntz : ℤ → Literal
  decimal : Text → ℤ → ℤ → Literal

-- const msPerDay
abbrev pub ms_per_day : ℕ
ms_per_day = 86400000

unfoldable pub timestamp_to_micros : ℤ → TimeUnit → Go ℤ
timestamp_to_micros v TimeUnit.second = ok (wrap64 (times v 1000000))
timestamp_to_micros v TimeUnit.millisecond = ok (wrap64 (times v 1000))
timestamp_to_micros v TimeUnit.microsecond = ok v
timestamp_to_micros v TimeUnit.nanosecond = ok (quot v 1000)
timestamp_to_micros v (TimeUnit.other_unit n) =
    err (adbc_error (count (codes "spark: unsupported timestamp unit %v") n) Status.not_implemented)

unfoldable pub timestamp_literal : ℤ → Option TimestampType → Go Literal
unfolding timestamp_to_micros
timestamp_literal v none =
    err (adbc_error (plain (codes "spark: timestamp column has no TimestampType")) Status.internal)
timestamp_literal v (some t) = timestamp_to_micros v t.unit >>= λ micros.
    ok (if is_nil t.time_zone then Literal.timestamp_ntz micros else Literal.timestamp micros)

unfoldable pub uint64_literal : ℕ → Go Literal
uint64_literal v =
    if ltb (two63 - 1) v
    then err (
        adbc_error
          (count
            (codes
              "spark: uint64 parameter %d exceeds the maximum bind value (Spark long is signed)")
            v)
          Status.invalid_argument)
    else ok (Literal.long (pos v))

-- The type switch. `decimal_text` is Arrow's rendering of an unscaled value at a scale.
unfoldable pub value_to_literal : (ℤ → ℤ → Text) → Value → Go Literal
unfolding timestamp_literal uint64_literal
value_to_literal decimal_text (Value.boolean b) = ok (Literal.boolean b)
value_to_literal decimal_text (Value.int8 v) = ok (Literal.byte v)
value_to_literal decimal_text (Value.int16 v) = ok (Literal.short v)
value_to_literal decimal_text (Value.int32 v) = ok (Literal.integer v)
value_to_literal decimal_text (Value.int64 v) = ok (Literal.long v)
value_to_literal decimal_text (Value.uint8 v) = ok (Literal.short (pos v))
value_to_literal decimal_text (Value.uint16 v) = ok (Literal.integer (pos v))
value_to_literal decimal_text (Value.uint32 v) = ok (Literal.long (pos v))
value_to_literal decimal_text (Value.uint64 v) = uint64_literal v
value_to_literal decimal_text (Value.float32 v) = ok (Literal.float v)
value_to_literal decimal_text (Value.float64 v) = ok (Literal.double v)
value_to_literal decimal_text (Value.string v) = ok (Literal.string v)
value_to_literal decimal_text (Value.large_string v) = ok (Literal.string v)
value_to_literal decimal_text (Value.binary v) = ok (Literal.binary v)
value_to_literal decimal_text (Value.large_binary v) = ok (Literal.binary v)
value_to_literal decimal_text (Value.date32 v) = ok (Literal.date v)
value_to_literal decimal_text (Value.date64 v) = ok (Literal.date (wrap32 (quot v ms_per_day)))
value_to_literal decimal_text (Value.timestamp v t) = timestamp_literal v t
value_to_literal decimal_text (Value.decimal128 v p s) = ok (Literal.decimal (decimal_text v s) p s)
value_to_literal decimal_text (Value.decimal256 v p s) = ok (Literal.decimal (decimal_text v s) p s)
value_to_literal decimal_text (Value.unsupported t) = err (
    adbc_error (format (codes "spark: cannot bind parameter of Arrow type %s") (t ∷ []))
      Status.not_implemented)

abbrev pub cell_to_literal : (ℤ → ℤ → Text) → Option Value → Go Literal
cell_to_literal decimal_text none = ok Literal.null
cell_to_literal decimal_text (some v) = value_to_literal decimal_text v

-- `none` is a panic: the row is out of the array's range.
unfoldable pub column_to_literal : (ℤ → ℤ → Text) → Column → ℕ → Option (Go Literal)
unfolding value_to_literal
column_to_literal decimal_text col row =
    Option.map (cell_to_literal decimal_text) (get_elem? col row)
