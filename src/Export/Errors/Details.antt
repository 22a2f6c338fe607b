-- ===== src/Export/Errors/Details.antt =====
-- The details of an error, as the caller reads them back.
use adbc_driver_spark.Base.{
  ℕ, zero, suc, true, false, ◌≡◌, refl, sym, subst, Option, none, some, Result, ok, err, List, [],
  ◌∷◌, map, length, length-map, get_elem?, is_nil,
}
use mathlib.Core.Option
use adbc_driver_spark.Base.Int.{pos, negsuc}
use adbc_driver_spark.Base.Text.{Text}
use adbc_driver_spark.Export.Errors.{
  Printer, Detail, CDetail, FullError, AdbcError, is_private_code, copied, copy_detail,
  set_err_with_details, with_private_data, error_get_detail_count, error_get_detail,
}

get_elem?-map :
    {A B : Type 0} (f : A → B) (xs : List A) (i : ℕ)
    → get_elem? (map f xs) i ≡ Option.map f (get_elem? xs i)
get_elem?-map f [] i = refl
get_elem?-map f (x ∷ xs) zero = refl
get_elem?-map f (x ∷ xs) (suc i) = get_elem?-map f xs i

private_details :
    (p : Printer) (e : AdbcError) (f : FullError)
    → is_private_code e.vendor_code ≡ true
    → is_nil f.details ≡ false
    → set_err_with_details p (some e) f
      ≡ some (with_private_data (record e { sqlstate = f.sqlstate }) f)
unfolding set_err_with_details
private_details p e f h n = rw (h, n) refl

-- What a caller reads for a detail: its key, with its serialized bytes, or with the text of the error
-- if it cannot be serialized; and null where there is none.
pub data ReadsAs : Option Detail → Option CDetail → Type 0 where
  absent : ReadsAs none none
  bytes_of :
      (k bytes : Text)
      → ReadsAs
          (some (record { key = k; serialized = ok bytes }))
          (some (record { key = k; value = bytes }))
  error_of :
      (k msg : Text)
      → ReadsAs
          (some (record { key = k; serialized = err msg }))
          (some (record { key = k; value = msg }))

copied-ReadsAs :
    (k : Text) (r : Result Text Text)
    → ReadsAs
        (some (record { key = k; serialized = r }))
        (some (record { key = k; value = copied r }))
copied-ReadsAs k (ok bytes) = bytes_of k bytes
copied-ReadsAs k (err msg) = error_of k msg

copy_detail-ReadsAs : (d : Option Detail) → ReadsAs d (Option.map copy_detail d)
copy_detail-ReadsAs none = absent
copy_detail-ReadsAs (some d) = copied-ReadsAs d.key d.serialized

-- A caller that asks for private data reads back every detail of an error that has any: their number,
-- each one by its position, with its key and its serialized bytes (the text of the error if it cannot
-- be serialized), and null for every other index, a negative one included.
pub set_err_with_details-get_detail :
    (p : Printer) (e : AdbcError) (f : FullError)
    → is_private_code e.vendor_code ≡ true
    → is_nil f.details ≡ false
    → let e' = set_err_with_details p (some e) f in
      (error_get_detail_count e' ≡ length f.details)
      × ((i : ℕ) → ReadsAs (get_elem? f.details i) (error_get_detail e' (pos i)))
      × ((i : ℕ) → error_get_detail e' (negsuc i) ≡ none)
unfolding error_get_detail_count error_get_detail with_private_data
set_err_with_details-get_detail p e f h n = rw (private_details p e f h n) (
  length-map copy_detail f.details,
  λ i.
      subst (ReadsAs (get_elem? f.details i)) (sym (get_elem?-map copy_detail f.details i))
        (copy_detail-ReadsAs (get_elem? f.details i)),
  λ i. refl,
)
