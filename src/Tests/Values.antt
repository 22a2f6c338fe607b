-- ===== src/Tests/Values.antt =====
-- Parameters and their conversion.
use adbc_driver_spark.Base.{◌≡◌, ◌↔◌, arith, refl, none, some, ok, [], ◌∷◌}
use adbc_driver_spark.Base.Int.{pos, negsuc, times, floor_div, IsInt64}
use adbc_driver_spark.Spark.Params.{
  Value, Literal, TimeUnit, timestamp_to_micros, value_to_literal, ms_per_day,
}
use adbc_driver_spark.Spark.Params.Integers.{value_to_literal-Carried, Carried}
use adbc_driver_spark.Spark.Params.Time.{timestamp_to_micros_iff, date64_iff, IsWholeDay}
use adbc_driver_spark.Spark.Statement.{Params, positional_literals}
use adbc_driver_spark.Spark.Statement.Binding
use adbc_driver_spark.Spark.Statement.Binding.{run_statements-IsBound, IsBound, run_statements}
use adbc_driver_spark.Spark.Statement.{fresh_statement}
use adbc_driver_spark.Spark.Statement.Execution.{positional_literals-Converts, Converts}
use adbc_driver_spark.Tests.Data.{print_none}

-- The largest uint64 is refused.
value_to_literal-Carried_example :
    Carried
      (pos 18446744073709551615)
      (value_to_literal print_none (Value.uint64 18446744073709551615))
value_to_literal-Carried_example =
    value_to_literal-Carried print_none (Value.uint64 18446744073709551615) (omega arith) refl

timestamp_to_micros_iff_example :
    ((timestamp_to_micros (pos 5) TimeUnit.second ≡ ok (times (pos 5) 1000000))
      ↔ IsInt64 (times (pos 5) 1000000))
    × ((timestamp_to_micros (pos 5) TimeUnit.millisecond ≡ ok (times (pos 5) 1000))
        ↔ IsInt64 (times (pos 5) 1000))
timestamp_to_micros_iff_example = timestamp_to_micros_iff (pos 5)

-- One millisecond before the epoch is bound as the epoch's day, not as the day before.
date64_iff_example :
    (value_to_literal print_none (Value.date64 (negsuc 0))
      ≡ ok (Literal.date (floor_div (negsuc 0) ms_per_day)))
    ↔ IsWholeDay (negsuc 0)
date64_iff_example = date64_iff print_none (negsuc 0) (omega arith)

abbrev one_row : Params
one_row = record { num_rows = 1; columns = (some (Value.int32 (pos 7)) ∷ []) ∷ (none ∷ []) ∷ [] }

positional_literals-Converts_example :
    (positional_literals print_none (some one_row)
      ≡ some (ok (Literal.integer (pos 7) ∷ Literal.null ∷ [])))
    ↔ Converts print_none one_row.columns (Literal.integer (pos 7) ∷ Literal.null ∷ [])
positional_literals-Converts_example =
    positional_literals-Converts print_none one_row (Literal.integer (pos 7) ∷ Literal.null ∷ [])
      (omega arith)

run_statements-IsBound_example : IsBound (
    run_statements fresh_statement (
      Binding.call_bind (some one_row)
      ∷ Binding.call_bind (some one_row)
      ∷ Binding.call_close
      ∷ []))
run_statements-IsBound_example =
    run_statements-IsBound (
      Binding.call_bind (some one_row) ∷ Binding.call_bind (some one_row) ∷ Binding.call_close ∷ [])
