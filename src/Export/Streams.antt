-- ===== src/Export/Streams.antt =====
-- c/driver.go: `cArrayStream`, its `maybeError`, the functions of an exported struct ArrowArrayStream and
-- `exportRecordReader`. A stream's `private_data` leads by way of a cgo handle to the cArrayStream, which
-- is written here in its place. Exporting a record or a schema with `cdata` is its arrival in the
-- caller's struct.
pub mod Delivery
pub mod Life
use adbc_driver_spark.Base.{Bool, true, false, Option, none, some, [], ◌∷◌, if◌then◌else◌}
use adbc_driver_spark.Base.Int.{pos, negsuc}
use adbc_driver_spark.Base.Text.{Text}
use adbc_driver_spark.Adbc.{Status, GoError}
use adbc_driver_spark.Connect.Reader.{Ipc, Reader, next, retain, release}
use adbc_driver_spark.Export.Errors.{Printer, AdbcError, no_release, err_release, err_to_adbc_err}

pub data Errno : Type 0 where
  success eio enotsup enoent eexist einval ecanceled etimedout eacces : Errno

-- The switch of `maybeError`.
unfoldable pub errno_of : Status → Errno
errno_of Status.unknown = eio
errno_of Status.not_implemented = enotsup
errno_of Status.not_found = enoent
errno_of Status.already_exists = eexist
errno_of Status.invalid_argument = einval
errno_of Status.invalid_state = einval
errno_of Status.invalid_data = eio
errno_of Status.integrity = eio
errno_of Status.internal = eio
errno_of Status.io = eio
errno_of Status.cancelled = ecanceled
errno_of Status.timeout = etimedout
errno_of Status.unauthenticated = eacces
errno_of Status.unauthorized = eacces
errno_of Status.ok = eio

-- What C.calloc gives.
abbrev pub zeroed_error : AdbcError
zeroed_error = record {
  message = none;
  vendor_code = pos 0;
  sqlstate = 0 ∷ 0 ∷ 0 ∷ 0 ∷ 0 ∷ [];
  private_data = none;
  release = no_release;
}

-- The struct for the error of a stream: the released old one, or a new one.
abbrev pub error_struct : Option AdbcError → AdbcError
error_struct none = zeroed_error
error_struct (some e) = err_release e

-- The struct with the vendor code ADBC_ERROR_VENDOR_CODE_PRIVATE_DATA.
abbrev pub asking_private : AdbcError → AdbcError
asking_private e = record e { vendor_code = negsuc 2147483647 }

-- What the caller's struct ArrowArray or ArrowSchema holds after a call.
pub data Out (A : Type 0) : Type 0 where
  untouched cleared : Out A
  exported : A → Out A

pub record CArrayStream (Schema Rec : Type 0) : Type 0 where
  pub rdr : Reader Schema Rec
  pub adbc_err : Option AdbcError
  pub status : Status

-- struct ArrowArrayStream; `ours` says that its `release` is SparkArrayStreamRelease.
pub record ArrayStream (Schema Rec : Type 0) : Type 0 where
  pub ours : Bool
  pub private_data : Option (CArrayStream Schema Rec)

abbrev pub message_of : Option AdbcError → Option Text
message_of none = none
message_of (some e) = e.message

module _ {Schema Rec : Type 0} where
  -- The cArrayStream behind a pointer to a stream, if the functions accept it.
  abbrev pub cstream_of : Option (ArrayStream Schema Rec) → Option (CArrayStream Schema Rec)
  cstream_of none = none
  cstream_of (some s) = if s.ours then s.private_data else none

  -- The stream with the cArrayStream as a function leaves it.
  abbrev pub with_cstream :
      CArrayStream Schema Rec → Option (ArrayStream Schema Rec) → Option (ArrayStream Schema Rec)
  with_cstream c none = none
  with_cstream c (some s) = some (record s { private_data = some c })

  abbrev pub reported :
      CArrayStream Schema Rec → Option AdbcError × Status → CArrayStream Schema Rec × Errno
  reported c (e, status) = (record c { adbc_err = e; status = status }, errno_of status)

  abbrev pub maybe_error_by :
      Printer → CArrayStream Schema Rec → Option GoError → CArrayStream Schema Rec × Errno
  maybe_error_by p c none = (c, success)
  maybe_error_by p c (some g) =
      reported c (err_to_adbc_err p (some (asking_private (error_struct c.adbc_err))) (some g))

  -- `maybeError`
  unfoldable pub maybe_error : Printer → CArrayStream Schema Rec → CArrayStream Schema Rec × Errno
  maybe_error p c = maybe_error_by p c c.rdr.error

  -- `SparkArrayStreamGetLastError`
  unfoldable pub get_last_error : Option (ArrayStream Schema Rec) → Option Text
  get_last_error s = elim (cstream_of s) [ none ↦ none | some c ↦ message_of c.adbc_err ]

  -- The record of a reader whose `Next` has said yes; `none` is a null pointer.
  abbrev pub export_record :
      CArrayStream Schema Rec → Option Rec → Option (CArrayStream Schema Rec × Out Rec × Errno)
  export_record c none = none
  export_record c (some rec) = some (c, exported rec, success)

  -- `SparkArrayStreamGetNext` from the outcome of `Next`.
  abbrev pub next_out :
      Printer
      → CArrayStream Schema Rec
      → Option (Reader Schema Rec × Bool)
      → Option (CArrayStream Schema Rec × Out Rec × Errno)
  next_out p c none = none
  next_out p c (some (r, true)) = export_record (record c { rdr = r }) r.cur
  next_out p c (some (r, false)) =
      let (c', e) = maybe_error p (record c { rdr = r }) in some (c', cleared, e)

  abbrev pub stored_next :
      Option (ArrayStream Schema Rec)
      → Option (CArrayStream Schema Rec × Out Rec × Errno)
      → Option (Option (ArrayStream Schema Rec) × Out Rec × Errno)
  stored_next s none = none
  stored_next s (some (c, out, e)) = some (with_cstream c s, out, e)

  -- `SparkArrayStreamGetNext`: the stream as it is left, the array, and the result; `none` is a panic.
  unfoldable pub get_next :
      Printer
      → (Text → Ipc Schema Rec)
      → Option (ArrayStream Schema Rec)
      → Option (Option (ArrayStream Schema Rec) × Out Rec × Errno)
  unfolding next maybe_error
  get_next p decode s = elim (cstream_of s) [
    | none ↦ some (s, untouched, einval)
    | some c ↦ stored_next s (next_out p c (next decode c.rdr))
  ]

  abbrev pub schema_out :
      Printer
      → CArrayStream Schema Rec
      → Option Schema
      → CArrayStream Schema Rec × Out Schema × Errno
  schema_out p c none = let (c', e) = maybe_error p c in (c', untouched, e)
  schema_out p c (some s) = (c, exported s, success)

  -- `SparkArrayStreamGetSchema`
  unfoldable pub get_schema :
      Printer
      → Option (ArrayStream Schema Rec)
      → Option (ArrayStream Schema Rec) × Out Schema × Errno
  unfolding maybe_error
  get_schema p s = elim (cstream_of s) [
    | none ↦ (s, untouched, einval)
    | some c ↦ let (c', out, e) = schema_out p c c.rdr.schema in (with_cstream c' s, out, e)
  ]

  abbrev pub without_cstream : Option (ArrayStream Schema Rec) → Option (ArrayStream Schema Rec)
  without_cstream none = none
  without_cstream (some s) = some (record s { private_data = none })

  -- `SparkArrayStreamRelease`: the stream as it is left, and the reader that it had, if any. The
  -- error struct is freed with the cArrayStream.
  unfoldable pub stream_release :
      Option (ArrayStream Schema Rec) → Option (ArrayStream Schema Rec) × Option (Reader Schema Rec)
  unfolding release
  stream_release s = elim (cstream_of s) [
    | none ↦ (s, none)
    | some c ↦ (without_cstream s, some (release c.rdr))
  ]

  -- `SparkErrorFromArrayStream`: the error struct, and the status that is written to `status`.
  unfoldable pub error_from_array_stream :
      Option (ArrayStream Schema Rec) → Option AdbcError × Option Status
  error_from_array_stream s = elim (cstream_of s) [
    | none ↦ (none, none)
    | some c ↦ (c.adbc_err, some c.status)
  ]

  -- `exportRecordReader`
  unfoldable pub export_record_reader : Reader Schema Rec → ArrayStream Schema Rec
  unfolding retain
  export_record_reader rdr = record {
    ours = true;
    private_data = some (record { rdr = retain rdr; adbc_err = none; status = Status.ok });
  }

  -- The `rdr.Release()` that the functions which export a reader defer: the stream's reader is the same
  -- object.
  abbrev pub deferred_release : CArrayStream Schema Rec → CArrayStream Schema Rec
  deferred_release c = record c { rdr = release c.rdr }

  unfoldable pub hand_over : Reader Schema Rec → ArrayStream Schema Rec
  unfolding export_record_reader release
  hand_over rdr =
      let s = export_record_reader rdr in
      record s {
        private_data = elim s.private_data [ none ↦ none | some c ↦ some (deferred_release c) ];
      }
