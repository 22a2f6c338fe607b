-- ===== src/Export/World.antt =====
-- c/driver.go: what the functions of the C interface share: `globalPoison` and `poison`,
-- `cancellableContext`, the structs behind the handles and their checks. A handle is the Go struct that
-- `private_data` leads to, null being `none`; a pointer to a C struct may itself be null. The Go
-- connections are a store, as a connection and its statements share one. Not modelled: stack traces,
-- logging and the garbage collection that the release functions start.
use adbc_driver_spark.Base.{
  ℕ, suc, Bool, true, Option, none, some, List, [], ◌∷◌, Result, ok, err, if◌then◌else◌,
}
use adbc_driver_spark.Base.Int.{ℤ}
use adbc_driver_spark.Base.Text.{Text, Unicode, codes}
use adbc_driver_spark.Adbc.{Status, Message, GoError}
use adbc_driver_spark.Arrow.{Schema, Batch}
use adbc_driver_spark.Connect.Config.{Config, Headers}
use adbc_driver_spark.Connect.Client.{Service}
use adbc_driver_spark.Spark.Database.{Database, Connection}
use adbc_driver_spark.Spark.Statement.{Statement}
use adbc_driver_spark.Spark.Objects.{CatalogRow}
use adbc_driver_spark.Export.Errors.{Printer, AdbcError, set_err, err_to_adbc_err}
use adbc_driver_spark.Export.Streams.{ArrayStream}

-- What surrounds the driver: `visit` is the order in which `range` visits a map, `dial_error` what
-- grpc.NewClient says of an endpoint, `uuid` the fresh UUIDs, `panic_value` the value of a panic.
pub record Env : Type 0 where
  pub printer : Printer
  pub unicode : Unicode
  pub service : Service
  pub visit : Headers → Headers
  pub dial_error : Text → Option Message
  pub uuid : ℕ → Text
  pub decimal_text : ℤ → ℤ → Text
  pub version : Text
  pub arrow_version : Text
  pub panic_value : Text

-- A `connection` of Go, and the content of the configuration that its client points to: no function of
-- the C interface changes the options of a database that has opened a connection.
pub record GoConnection : Type 0 where
  pub conn : Connection
  pub config : Config

-- The state of the driver: the flag `globalPoison`, the Go connections by their address, the number of
-- contexts made, and those that were cancelled, the last one first; and the statements that were
-- released, as their `Close` left them.
pub record World : Type 0 where
  pub poisoned : Bool
  pub connections : List GoConnection
  pub contexts : ℕ
  pub cancelled : List ℕ
  pub closed : List Statement

pub record CDatabase : Type 0 where
  pub opts : Headers
  pub db : Option Database

-- `context` is the cancellableContext; no `initArgs` is the empty list.
pub record CConn : Type 0 where
  pub context : Option ℕ
  pub cnxn : Option ℕ
  pub init_args : Headers

-- A statement with the address of its connection.
pub record CStmt : Type 0 where
  pub context : Option ℕ
  pub stmt : Option (Statement × ℕ)

-- A pointer to a struct of the caller, and its `private_data`.
abbrev pub Pointer : Type 0 → Type 0
Pointer S = Option (Option S)

-- What a function writes to the output that it is given; a row count only where the caller asks for it.
pub data Output : Type 0 where
  no_output : Output
  info_stream : List (ℕ × Text) → Output
  objects_stream : List CatalogRow → Output
  names_stream : List Text → Output
  result_stream : Option ℤ → ArrayStream Schema Batch → Output
  schema_output : Schema → Output
  rows_affected : ℤ → Output

-- The end of a function: the caller's struct, the driver, the error struct, the status, the output.
pub record Reply (S : Type 0) : Type 0 where
  pub struct : Pointer S
  pub world : World
  pub error : Option AdbcError
  pub code : Status
  pub output : Output

abbrev pub reply : {S : Type 0} → Pointer S → World → Option AdbcError × Status → Output → Reply S
reply s w (e, code) out = record { struct = s; world = w; error = e; code = code; output = out }

-- ADBC_STATUS_OK, the error struct as it was.
abbrev pub success : {S : Type 0} → Pointer S → World → Option AdbcError → Output → Reply S
success s w e out = reply s w (e, Status.ok) out

-- return C.AdbcStatusCode(errToAdbcErr(err, o))
unfoldable pub answer_error :
    {S : Type 0} → Env → Pointer S → World → Option AdbcError → Option GoError → Reply S
unfolding err_to_adbc_err
answer_error env s w e o = reply s w (err_to_adbc_err env.printer e o) no_output

-- setErr(err, text) and a status
unfoldable pub complain :
    {S : Type 0} → Env → Pointer S → World → Option AdbcError → Text → Status → Reply S
unfolding set_err
complain env s w e text code = reply s w (set_err env.printer e text [], code) no_output

-- `poison`, by the deferred function that recovers from a panic. The struct and the store are kept as
-- they were before the function: nothing reads them any more.
unfoldable pub poison : {S : Type 0} → Env → Pointer S → World → Option AdbcError → Text → Reply S
unfolding set_err
poison env s w e fname =
    reply s (record w { poisoned = true })
      (
        set_err env.printer e (codes "%s: Go panic in Spark driver (see stderr): %#v")
            (fname ∷ env.panic_value ∷ []),
        Status.internal,
      )
      no_output

-- A body that may panic.
abbrev pub recovered :
    {S : Type 0} → Env → Pointer S → World → Option AdbcError → Text → Option (Reply S) → Reply S
recovered env s w e fname none = poison env s w e fname
recovered env s w e fname (some r) = r

abbrev pub also : Option ℕ → List ℕ → List ℕ
also none l = l
also (some c) l = c ∷ l

-- `cancelContext` of the context, which is then nil.
unfoldable pub cancel_context : World → Option ℕ → World
cancel_context w c = record w { cancelled = also c w.cancelled }

-- `newContext`: the new context is the number of those before it.
unfoldable pub new_context : World → Option ℕ → World × ℕ
unfolding cancel_context
new_context w c =
    let w' = cancel_context w c in (record w' { contexts = suc w'.contexts }, w'.contexts)

-- setErr(err, format, fname) and a refusal
abbrev pub refusal :
    {A : Type 0} → Env → Option AdbcError → Text → Text → Result (Option AdbcError) A
refusal env e format' fname = err (set_err env.printer e format' (fname ∷ []))

abbrev pub panicked_format : Text
panicked_format = codes "%s: Go panicked, driver is in unknown state"

-- What checkDBAlloc, checkConnAlloc and checkStmtAlloc have in common.
abbrev pub allocated :
    {S : Type 0} → Env → Option AdbcError → Text → Text → Pointer S → Result (Option AdbcError) S
allocated env e format' fname none = refusal env e format' fname
allocated env e format' fname (some none) = refusal env e format' fname
allocated env e format' fname (some (some s)) = ok s

-- `checkDBAlloc`; a refusal comes with the error struct.
unfoldable pub check_db_alloc :
    Env → World → Option AdbcError → Pointer CDatabase → Text → Result (Option AdbcError) CDatabase
unfolding set_err
check_db_alloc env w e db fname =
    if w.poisoned
    then refusal env e panicked_format fname
    else allocated env e (codes "%s: database not allocated") fname db

abbrev pub db_of :
    Env → Option AdbcError → Text → CDatabase → Option Database → Result (Option AdbcError) Database
db_of env e fname cdb none = refusal env e (codes "%s: database not initialized") fname
db_of env e fname cdb (some d) = ok d

-- `checkDBInit`
unfoldable pub check_db_init :
    Env → World → Option AdbcError → Pointer CDatabase → Text → Result (Option AdbcError) Database
unfolding check_db_alloc set_err
check_db_init env w e db fname = elim (check_db_alloc env w e db fname) [
  | err e' ↦ err e'
  | ok cdb ↦ db_of env e fname cdb cdb.db
]

-- `checkConnAlloc`
unfoldable pub check_conn_alloc :
    Env → World → Option AdbcError → Pointer CConn → Text → Result (Option AdbcError) CConn
unfolding set_err
check_conn_alloc env w e cnxn fname =
    if w.poisoned
    then refusal env e panicked_format fname
    else allocated env e (codes "%s: connection not allocated") fname cnxn

abbrev pub cnxn_of :
    Env → Option AdbcError → Text → CConn → Option ℕ → Result (Option AdbcError) (CConn × ℕ)
cnxn_of env e fname conn none = refusal env e (codes "%s: connection not initialized") fname
cnxn_of env e fname conn (some a) = ok (conn, a)

-- `checkConnInit`: the struct and its connection.
unfoldable pub check_conn_init :
    Env → World → Option AdbcError → Pointer CConn → Text → Result (Option AdbcError) (CConn × ℕ)
unfolding check_conn_alloc set_err
check_conn_init env w e cnxn fname = elim (check_conn_alloc env w e cnxn fname) [
  | err e' ↦ err e'
  | ok conn ↦ cnxn_of env e fname conn conn.cnxn
]

-- `checkStmtAlloc`
unfoldable pub check_stmt_alloc :
    Env → World → Option AdbcError → Pointer CStmt → Text → Result (Option AdbcError) CStmt
unfolding set_err
check_stmt_alloc env w e stmt fname =
    if w.poisoned
    then refusal env e panicked_format fname
    else allocated env e (codes "%s: statement not allocated") fname stmt

abbrev pub stmt_of :
    Env
    → Option AdbcError
    → Text
    → CStmt
    → Option (Statement × ℕ)
    → Result (Option AdbcError) (CStmt × Statement × ℕ)
stmt_of env e fname st none = refusal env e (codes "%s: statement not allocated") fname
stmt_of env e fname st (some (s, a)) = ok (st, s, a)

-- `checkStmtInit`: the struct and its statement.
unfoldable pub check_stmt_init :
    Env
    → World
    → Option AdbcError
    → Pointer CStmt
    → Text
    → Result (Option AdbcError) (CStmt × Statement × ℕ)
unfolding check_stmt_alloc set_err
check_stmt_init env w e stmt fname = elim (check_stmt_alloc env w e stmt fname) [
  | err e' ↦ err e'
  | ok st ↦ stmt_of env e fname st st.stmt
]

-- What a function does with the outcome of a check: ADBC_STATUS_INVALID_STATE on a refusal.
unfoldable pub checked :
    {S A : Type 0} → Pointer S → World → Result (Option AdbcError) A → (A → Reply S) → Reply S
checked s w (err e) body = reply s w (e, Status.invalid_state) no_output
checked s w (ok a) body = body a
