-- ===== src/Export/Errors.antt =====
-- c/driver.go: `setErr`, `setErrWithDetails` and `errToAdbcErr`; c/utils.c and utils.h: the release of
-- an error and its details. C memory is not modelled: a struct owns what its fields hold, and freeing
-- a field empties it.
pub mod Reports
pub mod Details
use adbc_driver_spark.Base.{
  ℕ, Bool, true, false, not, ◌&&◌, Option, none, some, List, [], ◌∷◌, ◌++◌, map, Result, ok, err,
  ◌==◌, if◌then◌else◌, is_nil, length, get_elem?, take,
}
use adbc_driver_spark.Base.Int.{ℤ, pos, negsuc}
use adbc_driver_spark.Base.Text.{Text, codes, has_prefix}
use adbc_driver_spark.Adbc.{Status, Message, Error, GoError, text_of}

-- What `fmt` makes of a format with its operands, and of the messages of the driver.
pub record Printer : Type 0 where
  pub sprintf : Text → List Text → Text
  pub render : Message → Text

-- adbc.ErrorDetail: its key, and what its `Serialize` returns.
pub record Detail : Type 0 where
  pub key : Text
  pub serialized : Result Text Text

-- adbc.Error in full.
pub record FullError : Type 0 where
  pub msg : Text
  pub code : Status
  pub vendor_code : ℤ
  pub sqlstate : Text
  pub details : List Detail

-- The function that the field `release` of a struct AdbcError points to: none, or one of this driver.
-- A struct that another driver has filled is not modelled.
pub data Releaser : Type 0 where
  no_release plain_release details_release : Releaser

-- struct AdbcErrorDetail; a value carries its length.
pub record CDetail : Type 0 where
  pub key : Text
  pub value : Text

-- struct AdbcError; `private_data` is the struct SparkError with its keys and values.
pub record AdbcError : Type 0 where
  pub message : Option Text
  pub vendor_code : ℤ
  pub sqlstate : Text
  pub private_data : Option (List CDetail)
  pub release : Releaser

abbrev pub err_prefix : Text
err_prefix = codes "[Spark] "

-- ADBC_ERROR_VENDOR_CODE_PRIVATE_DATA is INT32_MIN.
abbrev pub is_private_code : ℤ → Bool
is_private_code (pos n) = false
is_private_code (negsuc n) = n == 2147483647

abbrev pub is_zero_code : ℤ → Bool
is_zero_code (pos n) = n == 0
is_zero_code (negsuc n) = false

-- `Spark_release_error`
abbrev pub release_error : AdbcError → AdbcError
release_error e = record e { message = none; release = no_release }

-- `SparkReleaseErrWithDetails`, called by way of the field `release`.
abbrev pub release_err_with_details : AdbcError → Option (List CDetail) → AdbcError
release_err_with_details e none = e
release_err_with_details e (some details) = record e {
  message = none;
  private_data = none;
  release = no_release;
}

-- `SparkerrRelease`
abbrev pub err_release_by : AdbcError → Releaser → AdbcError
err_release_by e no_release = e
err_release_by e plain_release = release_error e
err_release_by e details_release = record (release_err_with_details e e.private_data) {
  release = no_release;
}

unfoldable pub err_release : AdbcError → AdbcError
err_release e = err_release_by e e.release

unfoldable pub prefixed : Printer → Text → List Text → Text
unfolding has_prefix
prefixed p fmt vals =
    if has_prefix err_prefix fmt then p.sprintf fmt vals else err_prefix ++ p.sprintf fmt vals

-- `setErr`; the pointer to the error may be null.
unfoldable pub set_err : Printer → Option AdbcError → Text → List Text → Option AdbcError
unfolding err_release prefixed
set_err p none fmt vals = none
set_err p (some e) fmt vals =
    some (record (err_release e) { message = some (prefixed p fmt vals); release = plain_release })

-- A detail as it is copied: the text of the error where it cannot be serialized.
abbrev pub copied : Result Text Text → Text
copied (ok bytes) = bytes
copied (err msg) = msg

abbrev pub copy_detail : Detail → CDetail
copy_detail d = record { key = d.key; value = copied d.serialized }

unfoldable pub with_private_data : AdbcError → FullError → AdbcError
with_private_data e f = record e {
  message = some f.msg;
  release = details_release;
  private_data = some (map copy_detail f.details);
}

-- `setErrWithDetails`
unfoldable pub set_err_with_details : Printer → Option AdbcError → FullError → Option AdbcError
unfolding set_err with_private_data
set_err_with_details p none f = none
set_err_with_details p (some e) f =
    let stated = record e { sqlstate = f.sqlstate } in
    let coded = record stated { vendor_code = f.vendor_code } in
    if not (is_private_code e.vendor_code)
    then set_err p (some (if is_private_code f.vendor_code then stated else coded)) f.msg []
    else if is_nil f.details
        && (not (is_zero_code f.vendor_code) && not (is_private_code f.vendor_code))
    then set_err p (some coded) f.msg []
    else some (with_private_data stated f)

-- An adbc.Error of the driver: no code of it sets `SqlState` or `Details`.
abbrev pub full_error : Printer → Error → FullError
full_error p e = record {
  msg = p.render e.msg;
  code = e.code;
  vendor_code = pos e.vendor_code;
  sqlstate = 0 ∷ 0 ∷ 0 ∷ 0 ∷ 0 ∷ [];
  details = [];
}

-- `errToAdbcErr`
unfoldable pub err_to_adbc_err :
    Printer → Option AdbcError → Option GoError → Option AdbcError × Status
unfolding set_err set_err_with_details
err_to_adbc_err p e none = (e, Status.ok)
err_to_adbc_err p e (some (GoError.adbc f)) = (set_err_with_details p e (full_error p f), f.code)
err_to_adbc_err p e (some (GoError.other m)) = (set_err p e (p.render m) [], Status.unknown)

-- The details of an error that has any: `release` and `private_data` say so.
abbrev pub details_by : Releaser → Option (List CDetail) → Option (List CDetail)
details_by no_release details = none
details_by plain_release details = none
details_by details_release details = details

abbrev pub details_of : Option AdbcError → Option (List CDetail)
details_of none = none
details_of (some e) = details_by e.release e.private_data

abbrev pub count_of : Option (List CDetail) → ℕ
count_of none = 0
count_of (some details) = length details

-- `SparkErrorGetDetailCount`
unfoldable pub error_get_detail_count : Option AdbcError → ℕ
error_get_detail_count e = count_of (details_of e)

-- `none` is the struct of null pointers.
abbrev pub detail_at : Option (List CDetail) → ℤ → Option CDetail
detail_at none i = none
detail_at (some details) (negsuc i) = none
detail_at (some details) (pos i) = get_elem? details i

-- `SparkErrorGetDetail`
unfoldable pub error_get_detail : Option AdbcError → ℤ → Option CDetail
error_get_detail e i = detail_at (details_of e) i
