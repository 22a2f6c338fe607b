-- ===== src/Export/Databases.antt =====
-- c/driver.go: the functions of a struct AdbcDatabase. A function gets the caller's struct and error
-- struct, and leaves them in its reply. Spark's database has none of the optional methods of adbc.Database
-- (`GetSetOptions`, `PostInitOptions`), and its `Close` does nothing.
pub mod Phases
use adbc_driver_spark.Base.{
  Bool, true, false, Option, none, some, List, [], ◌∷◌, ◌++◌, Result, ok, err, if◌then◌else◌,
}
use adbc_driver_spark.Base.Text.{Text, codes}
use adbc_driver_spark.Adbc.{Status, GoError, Go}
use adbc_driver_spark.Connect.Config.{insert}
use adbc_driver_spark.Spark.Database.{Database, new_database_with}
use adbc_driver_spark.Export.Errors.{AdbcError}
use adbc_driver_spark.Export.World.{
  Env, World, CDatabase, Pointer, no_output, Reply, success, answer_error, complain, poison,
  recovered, check_db_alloc, check_db_init, checked,
}

abbrev pub new_struct : CDatabase
new_struct = record { opts = []; db = none }

-- What `SparkDatabaseNew` does with the pointer, which panics if it is null.
abbrev pub make_database :
    Env → World → Option AdbcError → Pointer CDatabase → Option (Reply CDatabase)
make_database env w e none = none
make_database env w e (some (some cdb)) = some (
    complain env (some (some cdb)) w e (codes "AdbcDatabaseNew: database already allocated")
      Status.invalid_state)
make_database env w e (some none) = some (success (some (some new_struct)) w e no_output)

-- `SparkDatabaseNew`
unfoldable pub database_new : Env → World → Option AdbcError → Pointer CDatabase → Reply CDatabase
unfolding complain poison
database_new env w e db =
    if w.poisoned
    then complain env db w e (codes "AdbcDatabaseNew: Go panicked, driver is in unknown state")
        Status.internal
    else recovered env db w e (codes "AdbcDatabaseNew") (make_database env w e db)

-- The end of `SparkDatabaseInit`.
abbrev pub initialized :
    Env → World → Option AdbcError → Pointer CDatabase → CDatabase → Go Database → Reply CDatabase
initialized env w e db cdb (err g) = answer_error env db w e (some g)
initialized env w e db cdb (ok d) = success (some (some (record cdb { db = some d }))) w e no_output

-- `SparkDatabaseInit`
unfoldable pub database_init : Env → World → Option AdbcError → Pointer CDatabase → Reply CDatabase
unfolding check_db_alloc checked complain answer_error new_database_with
database_init env w e db =
    checked db w (check_db_alloc env w e db (codes "AdbcDatabaseInit")) (λ cdb. elim cdb.db [
      | some _ ↦
          complain env db w e (codes "AdbcDatabaseInit: database already initialized")
            Status.invalid_state
      | none ↦ initialized env w e db cdb (new_database_with env.unicode (env.visit cdb.opts))
    ])

-- `SparkDatabaseRelease`
unfoldable pub database_release :
    Env → World → Option AdbcError → Pointer CDatabase → Reply CDatabase
unfolding check_db_alloc checked
database_release env w e db =
    checked db w (check_db_alloc env w e db (codes "AdbcDatabaseRelease"))
      (λ _. success (some none) w e no_output)

-- `SparkDatabaseSetOption`
unfoldable pub database_set_option :
    Env → World → Option AdbcError → Pointer CDatabase → Text → Text → Reply CDatabase
unfolding check_db_alloc checked complain insert
database_set_option env w e db key value =
    checked db w (check_db_alloc env w e db (codes "AdbcDatabaseSetOption")) (λ cdb. elim cdb.db [
      | some _ ↦
          complain env db w e (codes "AdbcDatabaseSetOption: options are not supported")
            Status.not_implemented
      | none ↦ success (some (some (record cdb { opts = insert key value cdb.opts }))) w e no_output
    ])

-- The other functions that read and write options, each with the name that it reports.
abbrev pub unsupported_option :
    Env → World → Option AdbcError → Pointer CDatabase → Text → Reply CDatabase
unsupported_option env w e db fname =
    checked db w (check_db_init env w e db fname) (λ _.
      complain env db w e (fname ++ codes ": options are not supported") Status.not_implemented)

-- `SparkDatabaseGetOption`
unfoldable pub database_get_option :
    Env → World → Option AdbcError → Pointer CDatabase → Reply CDatabase
unfolding check_db_init checked complain
database_get_option env w e db = unsupported_option env w e db (codes "AdbcDatabaseGetOption")

-- `SparkDatabaseGetOptionBytes`
unfoldable pub database_get_option_bytes :
    Env → World → Option AdbcError → Pointer CDatabase → Reply CDatabase
unfolding check_db_init checked complain
database_get_option_bytes env w e db =
    unsupported_option env w e db (codes "AdbcDatabaseGetOptionBytes")

-- `SparkDatabaseGetOptionDouble`
unfoldable pub database_get_option_double :
    Env → World → Option AdbcError → Pointer CDatabase → Reply CDatabase
unfolding check_db_init checked complain
database_get_option_double env w e db =
    unsupported_option env w e db (codes "AdbcDatabaseGetOptionDouble")

-- `SparkDatabaseGetOptionInt`
unfoldable pub database_get_option_int :
    Env → World → Option AdbcError → Pointer CDatabase → Reply CDatabase
unfolding check_db_init checked complain
database_get_option_int env w e db =
    unsupported_option env w e db (codes "AdbcDatabaseGetOptionInt")

-- `SparkDatabaseSetOptionBytes`
unfoldable pub database_set_option_bytes :
    Env → World → Option AdbcError → Pointer CDatabase → Reply CDatabase
unfolding check_db_init checked complain
database_set_option_bytes env w e db =
    unsupported_option env w e db (codes "AdbcDatabaseSetOptionBytes")

-- `SparkDatabaseSetOptionDouble`
unfoldable pub database_set_option_double :
    Env → World → Option AdbcError → Pointer CDatabase → Reply CDatabase
unfolding check_db_init checked complain
database_set_option_double env w e db =
    unsupported_option env w e db (codes "AdbcDatabaseSetOptionDouble")

-- `SparkDatabaseSetOptionInt`
unfoldable pub database_set_option_int :
    Env → World → Option AdbcError → Pointer CDatabase → Reply CDatabase
unfolding check_db_init checked complain
database_set_option_int env w e db =
    unsupported_option env w e db (codes "AdbcDatabaseSetOptionInt")
