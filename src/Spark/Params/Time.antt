-- ===== src/Spark/Params/Time.antt =====
-- Dates and timestamps: where the conversion is exact.
use adbc_driver_spark.Base.{suc, ◌%◌, ◌≡◌, ◌↔◌, refl, ap, Result, ok, arith}
use adbc_driver_spark.Base.Text.{Text}
use adbc_driver_spark.Base.Int.{
  ℤ, pos, negsuc, times, quot, floor_div, wrap64, wrap32_id, IsInt64, IsInt32,
}
use adbc_driver_spark.Adbc.{GoError}
use adbc_driver_spark.Spark.Params.{
  TimeUnit, Value, Literal, ms_per_day, timestamp_to_micros, value_to_literal,
}

wrap64_iff : (z : ℤ) → (wrap64 z ≡ z) ↔ IsInt64 z
wrap64_iff (pos n) = ground arith
wrap64_iff (negsuc n) = ground arith

ok-wrap64 : (z : ℤ) → (◌≡◌ {A = Result GoError ℤ} (ok (wrap64 z)) (ok z)) ↔ IsInt64 z
ok-wrap64 z = (λ e. (wrap64_iff z).0 (cc), λ h. ap ok ((wrap64_iff z).1 h))

-- Seconds and milliseconds are converted exactly when the microseconds fit 64 bits.
pub timestamp_to_micros_iff :
    (v : ℤ)
    → ((timestamp_to_micros v TimeUnit.second ≡ ok (times v 1000000)) ↔ IsInt64 (times v 1000000))
      × ((timestamp_to_micros v TimeUnit.millisecond ≡ ok (times v 1000)) ↔ IsInt64 (times v 1000))
unfolding timestamp_to_micros
timestamp_to_micros_iff v = (ok-wrap64 (times v 1000000), ok-wrap64 (times v 1000))

-- At or after the epoch, or at midnight.
abbrev pub IsWholeDay : ℤ → Type 0
IsWholeDay (pos n) = Unit
IsWholeDay (negsuc n) = suc n % ms_per_day ≡ 0

quot_floor : (z : ℤ) → (quot z ms_per_day ≡ floor_div z ms_per_day) ↔ IsWholeDay z
quot_floor (pos n) = (λ _. tt, λ _. refl)
quot_floor (negsuc n) = ground arith

quot-IsInt32 : (z : ℤ) → IsInt32 (floor_div z ms_per_day) → IsInt32 (quot z ms_per_day)
quot-IsInt32 (pos n) h = h
quot-IsInt32 (negsuc n) h = ground arith

-- A Date64 whose day fits 32 bits becomes the day that holds it (its milliseconds rounded down)
-- exactly when it is not before the epoch, or is a midnight.
pub date64_iff :
    (decimal_text : ℤ → ℤ → Text) (v : ℤ)
    → IsInt32 (floor_div v ms_per_day)
    → (value_to_literal decimal_text (Value.date64 v) ≡ ok (Literal.date (floor_div v ms_per_day)))
      ↔ IsWholeDay v
unfolding value_to_literal
date64_iff dt v h =
    rw (wrap32_id (quot v ms_per_day) (quot-IsInt32 v h))
      (λ e. (quot_floor v).0 (cc), λ w. ap (λ d. ok (Literal.date d)) ((quot_floor v).1 w))
