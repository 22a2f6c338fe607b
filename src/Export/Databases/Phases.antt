-- ===== src/Export/Databases/Phases.antt =====
-- The life of a database handle: what a caller may know of it without its representation.
use adbc_driver_spark.Base.{
  Bool, true, false, ◌≡◌, refl, sym, ap, subst, ◌∙◌, Option, none, some, [], ok, err, if◌then◌else◌,
}
use adbc_driver_spark.Base.Text.{Text, text_eq}
use adbc_driver_spark.Adbc.{Status, GoError, Go}
use adbc_driver_spark.Connect.Config.{Headers, lookup, insert}
use adbc_driver_spark.Spark.Database.{Database, new_database_with}
use adbc_driver_spark.Spark.Database.Options.{lookup-insert}
use adbc_driver_spark.Export.Errors.{AdbcError}
use adbc_driver_spark.Export.Errors.Reports.{status_of, err_to_adbc_err-status}
use adbc_driver_spark.Export.World.{
  Env, World, CDatabase, Pointer, Reply, answer_error, complain, checked, check_db_alloc,
  check_db_init,
}
use adbc_driver_spark.Export.Databases.{
  database_new, database_init, initialized, database_release, database_set_option,
  unsupported_option, database_get_option, database_get_option_bytes, database_get_option_double,
  database_get_option_int, database_set_option_bytes, database_set_option_double,
  database_set_option_int,
}

-- The functions of a database that leave options alone.
pub data OptionCall : Type 0 where
  get_option get_option_bytes get_option_double get_option_int : OptionCall
  set_option_bytes set_option_double set_option_int : OptionCall

pub data DbCall : Type 0 where
  call_new call_init call_release : DbCall
  call_set_option : Text → Text → DbCall
  call_option : OptionCall → DbCall

abbrev pub db_option_call :
    Env → World → Option AdbcError → Pointer CDatabase → OptionCall → Reply CDatabase
db_option_call env w e db get_option = database_get_option env w e db
db_option_call env w e db get_option_bytes = database_get_option_bytes env w e db
db_option_call env w e db get_option_double = database_get_option_double env w e db
db_option_call env w e db get_option_int = database_get_option_int env w e db
db_option_call env w e db set_option_bytes = database_set_option_bytes env w e db
db_option_call env w e db set_option_double = database_set_option_double env w e db
db_option_call env w e db set_option_int = database_set_option_int env w e db

abbrev pub db_call : Env → World → Option AdbcError → Pointer CDatabase → DbCall → Reply CDatabase
db_call env w e db call_new = database_new env w e db
db_call env w e db call_init = database_init env w e db
db_call env w e db call_release = database_release env w e db
db_call env w e db (call_set_option k v) = database_set_option env w e db k v
db_call env w e db (call_option o) = db_option_call env w e db o

-- The abstract view of a handle: options are a function of their key.
pub data View : Type 0 where
  absent : View
  collecting : (Text → Option Text) → View
  ready : Database → View

abbrev pub updated : (Text → Option Text) → Text → Text → Text → Option Text
updated f key value j = if text_eq key j then some value else f j

abbrev pub is_present : View → Bool
is_present absent = false
is_present (collecting f) = true
is_present (ready d) = true

abbrev pub is_new : DbCall → Bool
is_new call_new = true
is_new _ = false

-- The contract of a database handle: what a call may answer, and what becomes of the handle.
pub data Allows (env : Env) : View → DbCall → Status → View → Type 0 where
  makes : Allows env absent call_new Status.ok (collecting (λ _. none))
  made_before : {v : View} → is_present v ≡ true → Allows env v call_new Status.invalid_state v
  missing : {c : DbCall} → is_new c ≡ false → Allows env absent c Status.invalid_state absent
  keeps_option :
      {f : Text → Option Text} (k v : Text)
      → Allows env (collecting f) (call_set_option k v) Status.ok (collecting (updated f k v))
  too_late :
      {d : Database} (k v : Text)
      → Allows env (ready d) (call_set_option k v) Status.not_implemented (ready d)
  inits :
      {f : Text → Option Text} (opts : Headers) (d : Database)
      → ((k : Text) → lookup k opts ≡ f k)
      → new_database_with env.unicode (env.visit opts) ≡ ok d
      → Allows env (collecting f) call_init Status.ok (ready d)
  init_fails :
      {f : Text → Option Text} (opts : Headers) (g : GoError)
      → ((k : Text) → lookup k opts ≡ f k)
      → new_database_with env.unicode (env.visit opts) ≡ err g
      → Allows env (collecting f) call_init (status_of g) (collecting f)
  inited_before : {d : Database} → Allows env (ready d) call_init Status.invalid_state (ready d)
  releases : {v : View} → is_present v ≡ true → Allows env v call_release Status.ok absent
  not_yet :
      {f : Text → Option Text} (o : OptionCall)
      → Allows env (collecting f) (call_option o) Status.invalid_state (collecting f)
  not_supported :
      {d : Database} (o : OptionCall)
      → Allows env (ready d) (call_option o) Status.not_implemented (ready d)

-- A view and the struct that it is a view of.
pub data Represents : View → Option CDatabase → Type 0 where
  nothing : Represents absent none
  options :
      {f : Text → Option Text} (opts : Headers)
      → ((k : Text) → lookup k opts ≡ f k)
      → Represents (collecting f) (some (record { opts = opts; db = none }))
  database :
      (opts : Headers) (d : Database)
      → Represents (ready d) (some (record { opts = opts; db = some d }))

-- A reply follows the contract, and leaves the driver as it was.
pub record Follows (env : Env) (w : World) (v : View) (c : DbCall) (r : Reply CDatabase)
    : Type 0 where
  pub view : View
  pub struct' : Option CDatabase
  pub allowed : Allows env v c r.code view
  pub same_struct : r.struct ≡ some struct'
  pub represents : Represents view struct'
  pub same_world : r.world ≡ w

module _ (env : Env) (w : World) (e : Option AdbcError) where
  -- A driver that has not panicked.
  abbrev clean : World
  clean = record w { poisoned = false }

  initialized-Follows :
      {f : Text → Option Text} (opts : Headers) (o : Go Database)
      → ((k : Text) → lookup k opts ≡ f k)
      → new_database_with env.unicode (env.visit opts) ≡ o
      → let cdb : CDatabase = record { opts = opts; db = none } in
        Follows env clean (collecting f) call_init (initialized env clean e (some (some cdb)) cdb o)
  unfolding answer_error
  initialized-Follows {f} opts (ok d) h same = record {
    view = ready d;
    struct' = some (record { opts = opts; db = some d });
    allowed = inits opts d h same;
    same_struct = refl;
    represents = database opts d;
    same_world = refl;
  }
  initialized-Follows {f} opts (err g) h same = record {
    view = collecting f;
    struct' = some (record { opts = opts; db = none });
    allowed =
        subst (λ s. Allows env (collecting f) call_init s (collecting f))
          (sym (err_to_adbc_err-status env.printer e g)) (init_fails opts g h same);
    same_struct = refl;
    represents = options opts h;
    same_world = refl;
  }

  -- A reply that leaves everything as it was.
  stays :
      {v : View} {s : Option CDatabase} {c : DbCall} {r : Reply CDatabase}
      → Represents v s
      → r.struct ≡ some s
      → r.world ≡ clean
      → Allows env v c r.code v
      → Follows env clean v c r
  stays {v} {s} h same kept a = record {
    view = v;
    struct' = s;
    allowed = a;
    same_struct = same;
    represents = h;
    same_world = kept;
  }

  unsupported-Follows :
      {v : View} {s : Option CDatabase} (o : OptionCall) (fname : Text)
      → Represents v s
      → Follows env clean v (call_option o) (unsupported_option env clean e (some s) fname)
  unfolding check_db_init check_db_alloc checked complain
  unsupported-Follows o fname nothing = stays nothing refl refl (missing refl)
  unsupported-Follows o fname (options opts h) = stays (options opts h) refl refl (not_yet o)
  unsupported-Follows o fname (database opts d) =
      stays (database opts d) refl refl (not_supported o)

  option-Follows :
      {v : View} {s : Option CDatabase} (o : OptionCall)
      → Represents v s
      → Follows env clean v (call_option o) (db_option_call env clean e (some s) o)
  unfolding database_get_option database_get_option_bytes database_get_option_double
      database_get_option_int database_set_option_bytes database_set_option_double
      database_set_option_int
  option-Follows get_option h = unsupported-Follows get_option _ h
  option-Follows get_option_bytes h = unsupported-Follows get_option_bytes _ h
  option-Follows get_option_double h = unsupported-Follows get_option_double _ h
  option-Follows get_option_int h = unsupported-Follows get_option_int _ h
  option-Follows set_option_bytes h = unsupported-Follows set_option_bytes _ h
  option-Follows set_option_double h = unsupported-Follows set_option_double _ h
  option-Follows set_option_int h = unsupported-Follows set_option_int _ h

  lookup-nil : (k : Text) → lookup k [] ≡ none
  unfolding lookup
  lookup-nil k = refl

  release-Follows :
      {v : View} (cdb : CDatabase)
      → is_present v ≡ true
      → Follows env clean v call_release (database_release env clean e (some (some cdb)))
  unfolding database_release check_db_alloc checked
  release-Follows cdb h = record {
    view = absent;
    struct' = none;
    allowed = releases h;
    same_struct = refl;
    represents = nothing;
    same_world = refl;
  }

  clean-Follows :
      {v : View} {s : Option CDatabase} (c : DbCall)
      → Represents v s
      → Follows env clean v c (db_call env clean e (some s) c)
  unfolding database_new database_init database_release database_set_option check_db_alloc checked
      complain
  clean-Follows call_new nothing = record {
    view = collecting (λ _. none);
    struct' = some (record { opts = []; db = none });
    allowed = makes;
    same_struct = refl;
    represents = options [] lookup-nil;
    same_world = refl;
  }
  clean-Follows call_new (options opts h) = stays (options opts h) refl refl (made_before refl)
  clean-Follows call_new (database opts d) = stays (database opts d) refl refl (made_before refl)
  clean-Follows call_init nothing = stays nothing refl refl (missing refl)
  clean-Follows call_init (options opts h) = initialized-Follows opts _ h refl
  clean-Follows call_init (database opts d) = stays (database opts d) refl refl inited_before
  clean-Follows call_release nothing = stays nothing refl refl (missing refl)
  clean-Follows call_release (options opts h) =
      release-Follows (record { opts = opts; db = none }) refl
  clean-Follows call_release (database opts d) =
      release-Follows (record { opts = opts; db = some d }) refl
  clean-Follows (call_set_option k v) nothing = stays nothing refl refl (missing refl)
  clean-Follows (call_set_option k v) (options {f} opts h) = record {
    view = collecting (updated f k v);
    struct' = some (record { opts = insert k v opts; db = none });
    allowed = keeps_option k v;
    same_struct = refl;
    represents =
        options (insert k v opts)
          (λ j. lookup-insert k v j opts ∙ ap (λ o. if text_eq k j then some v else o) (h j));
    same_world = refl;
  }
  clean-Follows (call_set_option k v) (database opts d) =
      stays (database opts d) refl refl (too_late k v)
  clean-Follows (call_option o) h = option-Follows o h

-- While the driver has not panicked, every function of a database follows the contract `Allows` on
-- any handle, whatever the error struct: options are kept under their keys until Init, which makes
-- the database of exactly these options or fails with its error; every call out of turn is refused
-- with ADBC_STATUS_INVALID_STATE or ADBC_STATUS_NOT_IMPLEMENTED and changes nothing; and the state
-- of the driver is the same afterwards.
pub db_call-Follows :
    (env : Env) (w : World) (e : Option AdbcError) (c : DbCall) {v : View} {s : Option CDatabase}
    → w.poisoned ≡ false
    → Represents v s
    → Follows env w v c (db_call env w e (some s) c)
db_call-Follows env w e c {v} {s} h r =
    subst (λ w'. Follows env w' v c (db_call env w' e (some s) c))
      (ap (λ b. record w { poisoned = b }) (sym h)) (clean-Follows env w e c r)
