-- ===== src/Export/Connections.antt =====
-- c/driver.go: the functions of a struct AdbcConnection. Spark's connection has none of the optional
-- methods of adbc.Connection (`GetSetOptions`, `PostInitOptions`, `ConnectionGetStatistics`). An output
-- struct whose pointer is null makes an export panic; the flag `out` says that the pointer is not null.
pub mod Options
pub mod Calls
use adbc_driver_spark.Base.{
  ℕ, zero, suc, Bool, true, false, Option, none, some, List, [], ◌∷◌, ◌++◌, Result, ok, err, length,
  if◌then◌else◌, get_elem?, is_nil,
}
use adbc_driver_spark.Base.Text.{Text, codes}
use adbc_driver_spark.Adbc.{Status, GoError, Go}
use adbc_driver_spark.Arrow.{Schema}
use adbc_driver_spark.Connect.Config.{Config, insert}
use adbc_driver_spark.Connect.Client.{Client}
use adbc_driver_spark.Spark.Database.{Database, Connection, open_connection}
use adbc_driver_spark.Spark.Connection.{
  close_connection, commit, rollback, read_partition, get_table_schema,
}
use adbc_driver_spark.Spark.Listing.{get_table_types, get_info, get_objects}
use adbc_driver_spark.Spark.Objects.{Depth, CatalogRow}
use adbc_driver_spark.Export.Errors.{AdbcError}
use adbc_driver_spark.Export.World.{
  Env, GoConnection, World, CDatabase, CConn, Pointer, Output, no_output, info_stream,
  objects_stream, names_stream, schema_output, Reply, success, answer_error, complain, poison,
  recovered, cancel_context, new_context, check_db_init, check_conn_alloc, check_conn_init, checked,
}

abbrev pub new_conn : CConn
new_conn = record { context = none; cnxn = none; init_args = [] }

-- What `SparkConnectionNew` does with the pointer, which panics if it is null.
abbrev pub make_conn : Env → World → Option AdbcError → Pointer CConn → Option (Reply CConn)
make_conn env w e none = none
make_conn env w e (some (some conn)) = some (
    complain env (some (some conn)) w e (codes "AdbcConnectionNew: connection already allocated")
      Status.invalid_state)
make_conn env w e (some none) = some (success (some (some new_conn)) w e no_output)

-- `SparkConnectionNew`
unfoldable pub connection_new : Env → World → Option AdbcError → Pointer CConn → Reply CConn
unfolding complain poison
connection_new env w e cnxn =
    if w.poisoned
    then complain env cnxn w e (codes "AdbcConnectionNew: Go panicked, driver is in unknown state")
        Status.internal
    else recovered env cnxn w e (codes "AdbcConnectionNew") (make_conn env w e cnxn)

-- `SparkConnectionSetOption`
unfoldable pub connection_set_option :
    Env → World → Option AdbcError → Pointer CConn → Text → Text → Reply CConn
unfolding check_conn_alloc checked complain insert
connection_set_option env w e cnxn key value =
    checked cnxn w (check_conn_alloc env w e cnxn (codes "AdbcConnectionSetOption")) (λ conn.
      elim conn.cnxn [
        | some _ ↦
            complain env cnxn w e (codes "AdbcConnectionSetOption: not supported post-init")
              Status.not_implemented
        | none ↦
            success (some (some (record conn { init_args = insert key value conn.init_args }))) w e
              no_output
      ])

-- The world with one more Go connection, and its address.
abbrev pub with_connection : World → Connection → Config → World
with_connection w c cfg = record w {
  connections = w.connections ++ record { conn = c; config = cfg } ∷ [];
}

-- The configuration that an opened connection points to; an address outside the store cannot occur.
abbrev pub config_of : Database → Connection → Option Config
config_of d c = get_elem? d.store c.cfg

-- The end of `SparkConnectionInit`: options that were set before cannot be passed on.
abbrev pub opened_conn : Env → World → Option AdbcError → CConn → Connection → Config → Reply CConn
opened_conn env w e conn c cfg =
    let conn' = record conn { cnxn = some (length w.connections) } in
    let w' = with_connection w c cfg in
    if is_nil conn.init_args
    then success (some (some conn')) w' e no_output
    else complain env (some (some conn')) w' e
        (codes "AdbcConnectionInit: options are not supported") Status.not_implemented

abbrev pub open_on :
    Env
    → World
    → Option AdbcError
    → Pointer CConn
    → CConn
    → Database
    → Go Connection
    → Option (Reply CConn)
open_on env w e cnxn conn d (err g) = some (answer_error env cnxn w e (some g))
open_on env w e cnxn conn d (ok c) = elim (config_of d c) [
  | none ↦ none
  | some cfg ↦ some (opened_conn env w e conn c cfg)
]

-- `SparkConnectionInit`
unfoldable pub connection_init :
    Env → World → Option AdbcError → Pointer CConn → Pointer CDatabase → Reply CConn
unfolding check_conn_alloc checked complain check_db_init answer_error poison open_connection
connection_init env w e cnxn db =
    checked cnxn w (check_conn_alloc env w e cnxn (codes "AdbcConnectionInit")) (λ conn.
      elim conn.cnxn [
        | some _ ↦
            complain env cnxn w e (codes "AdbcConnectionInit: connection already initialized")
              Status.invalid_state
        | none ↦ checked cnxn w (check_db_init env w e db (codes "AdbcConnectionInit")) (λ d.
            recovered env cnxn w e (codes "AdbcConnectionInit") (
              open_on env w e cnxn conn d
                (open_connection env.dial_error (env.uuid (length w.connections)) d)))
      ])

-- The Go connection at an address, changed.
abbrev pub set_connection : List GoConnection → ℕ → Connection → List GoConnection
set_connection [] a c = []
set_connection (g ∷ gs) zero c = record g { conn = c } ∷ gs
set_connection (g ∷ gs) (suc a) c = g ∷ set_connection gs a c

abbrev pub put : World → ℕ → Connection → World
put w a c = record w { connections = set_connection w.connections a c }

-- Closing the Go connection, if there is one.
abbrev pub close_go : Env → World → Option GoConnection → ℕ → World × Option GoError
close_go env w none a = (w, none)
close_go env w (some g) a =
    let (c, _, o) = close_connection env.service g.config g.conn in (put w a c, o)

abbrev pub close_cnxn : Env → World → Option ℕ → World × Option GoError
close_cnxn env w none = (w, none)
close_cnxn env w (some a) = close_go env w (get_elem? w.connections a) a

-- `SparkConnectionRelease`: the deferred function follows the answer.
unfoldable pub connection_release : Env → World → Option AdbcError → Pointer CConn → Reply CConn
unfolding check_conn_alloc checked answer_error cancel_context close_connection
connection_release env w e cnxn =
    checked cnxn w (check_conn_alloc env w e cnxn (codes "AdbcConnectionRelease")) (λ conn.
      let (w', o) = close_cnxn env w conn.cnxn in
      answer_error env (some none) (cancel_context w' conn.context) e o)

-- `SparkConnectionCancel`
unfoldable pub connection_cancel : Env → World → Option AdbcError → Pointer CConn → Reply CConn
unfolding check_conn_init checked cancel_context
connection_cancel env w e cnxn =
    checked cnxn w (check_conn_init env w e cnxn (codes "AdbcConnectionCancel")) (λ (conn, a).
      success (some (some (record conn { context = none }))) (cancel_context w conn.context) e
        no_output)

-- What a method makes of the connection, and what it exports; `none` is a panic.
abbrev pub Method : Type 0
Method = Config → Connection → Option (Connection × Go Output)

-- The end of a function that exports what a method returns.
abbrev pub export_result :
    Env → Text → Bool → CConn → World → Option AdbcError → Go Output → Reply CConn
export_result env fname out conn w e (err g) = answer_error env (some (some conn)) w e (some g)
export_result env fname out conn w e (ok o) =
    if out then success (some (some conn)) w e o else poison env (some (some conn)) w e fname

abbrev pub called :
    Env
    → Text
    → Bool
    → CConn
    → World
    → Option AdbcError
    → ℕ
    → Option (Connection × Go Output)
    → Option (Reply CConn)
called env fname out conn w e a none = none
called env fname out conn w e a (some (c, r)) =
    some (export_result env fname out conn (put w a c) e r)

-- An address outside the store cannot occur.
abbrev pub call_method :
    Env
    → Text
    → Bool
    → CConn
    → World
    → Option AdbcError
    → ℕ
    → Method
    → Option GoConnection
    → Option (Reply CConn)
call_method env fname out conn w e a m none = none
call_method env fname out conn w e a m (some g) =
    called env fname out conn w e a (m g.config g.conn)

-- A function of an open connection: a new context, the method, the export of its result.
unfoldable pub connection_call :
    Env → World → Option AdbcError → Pointer CConn → Text → Bool → Method → Reply CConn
unfolding check_conn_init checked new_context answer_error poison
connection_call env w e cnxn fname out m =
    checked cnxn w (check_conn_init env w e cnxn fname) (λ (conn, a).
      let (w', ctx) = new_context w conn.context in
      let conn' = record conn { context = some ctx } in
      recovered env (some (some conn')) w' e fname
        (call_method env fname out conn' w' e a m (get_elem? w'.connections a)))
