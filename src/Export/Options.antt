-- ===== src/Export/Options.antt =====
-- c/driver.go: `exportStringOption` and `exportBytesOption`. A buffer of the caller is the memory from
-- its address on; `length` is below 2^63, so that its conversion to `int` keeps it.
pub mod Buffers
use adbc_driver_spark.Base.{
  ℕ, zero, suc, ◌+◌, Bool, true, false, Option, none, some, List, [], ◌∷◌, ◌++◌, leb, ltb,
  if◌then◌else◌, length, take, drop,
}
use adbc_driver_spark.Base.Text.{Text}

-- The built-in `copy`: over the beginning of a slice, as far as both go.
abbrev pub copy : Text → Text → Text
copy [] dst = dst
copy (x ∷ src) [] = []
copy (x ∷ src) (y ∷ dst) = x ∷ copy src dst

-- s[i] = x; `none` is the panic of an index out of range.
abbrev pub set_at : ℕ → ℕ → Text → Option Text
set_at i x [] = none
set_at zero x (y ∷ s) = some (x ∷ s)
set_at (suc i) x (y ∷ s) = elim (set_at i x s) [ none ↦ none | some t ↦ some (y ∷ t) ]

-- The memory behind a slice of its first bytes, once the slice has been written.
abbrev pub written : ℕ → Text → Option Text → Option (Option Text)
written len mem none = none
written len mem (some sink) = some (some (sink ++ drop len mem))

-- The terminated value in the first `len` bytes; `fromCArr` makes an empty slice of a null pointer.
abbrev pub write_string : Text → Option Text → ℕ → Option (Option Text)
write_string val none len = none
write_string val (some mem) len = written len mem (set_at (length val) 0 (copy val (take len mem)))

abbrev pub with_length : ℕ → Option (Option Text) → Option (Option Text × ℕ)
with_length n none = none
with_length n (some out) = some (out, n)

-- `exportStringOption`: the buffer and `*length` as they are left, or `none` for a panic.
unfoldable pub export_string_option : Text → Option Text → ℕ → Option (Option Text × ℕ)
export_string_option val out len =
    let need = length val + 1 in
    with_length need (if leb need len then write_string val out len else some out)

abbrev pub write_bytes : Text → Option Text → ℕ → Option Text
write_bytes val none len = none
write_bytes val (some mem) len = some (copy val (take len mem) ++ drop len mem)

-- `exportBytesOption`
unfoldable pub export_bytes_option : Text → Option Text → ℕ → Option Text × ℕ
export_bytes_option val out len =
    (if leb (length val) len then write_bytes val out len else out, length val)
