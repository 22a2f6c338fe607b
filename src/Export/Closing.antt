-- ===== src/Export/Closing.antt =====
-- A connection and its statements, across the C interface.
use adbc_driver_spark.Base.{
  ℕ, zero, suc, Bool, true, false, ◌≡◌, refl, sym, ap, subst, Option, none, some, List, [], ◌∷◌,
  err, get_elem?,
}
use adbc_driver_spark.Base.Text.{Text, codes}
use adbc_driver_spark.Adbc.{Status}
use adbc_driver_spark.Connect.Config.{Headers}
use adbc_driver_spark.Spark.Database.{Connection}
use adbc_driver_spark.Spark.Connection.{close_connection, close_client-client}
use adbc_driver_spark.Spark.Statement.{
  Statement, err_closed, execute_query, execute_update, discard,
}
use adbc_driver_spark.Spark.Statement.Execution.{no_client}
use adbc_driver_spark.Export.Errors.{AdbcError, err_to_adbc_err}
use adbc_driver_spark.Export.World.{
  Env, GoConnection, World, CConn, CStmt, Pointer, no_output, Reply, answer_error, recovered,
  checked, cancel_context, new_context, check_conn_alloc, check_stmt_alloc, check_stmt_init,
}
use adbc_driver_spark.Export.Connections.{set_connection, connection_release}
use adbc_driver_spark.Export.Closed.{ClosedAt}
use adbc_driver_spark.Export.Closed.Runs.{AnyCall, run_any_calls, run_any_calls-ClosedAt}
use adbc_driver_spark.Export.Statements.{
  holding, execute_on, after_call, query_output, update_output, statement_execute_query,
}

get_elem-set_connection :
    (gs : List GoConnection) (a : ℕ) (c : Connection) {g : GoConnection}
    → get_elem? gs a ≡ some g
    → get_elem? (set_connection gs a c) a ≡ some (record g { conn = c })
get_elem-set_connection [] a c e = cc
get_elem-set_connection (x ∷ xs) zero c e =
    ap (λ o. elim o [ none ↦ none | some y ↦ some (record y { conn = c }) ]) e
get_elem-set_connection (x ∷ xs) (suc a) c e = get_elem-set_connection xs a c e

-- The answer to a call on a closed connection.
abbrev pub Refuses : Reply CStmt → Type 0
Refuses r = (r.code ≡ Status.invalid_state) × (r.output ≡ no_output)

module _ (env : Env) (w : World) where
  abbrev calm : World
  calm = record w { poisoned = false }

  execute_on-Refuses :
      (st : Pointer CStmt) (v : World) (e : Option AdbcError) (fname : Text) (out affected : Bool)
      (s : Statement) (a : ℕ) (g : GoConnection)
      → execute_query env.decimal_text env.service g.config g.conn s ≡ some (g.conn, err err_closed)
      → Refuses (recovered env st v e fname (execute_on env st v e out affected s a (some g)))
  unfolding execute_update answer_error err_to_adbc_err err_closed
  execute_on-Refuses st v e fname true affected s a g closed =
      subst
        (λ o.
          Refuses (recovered env st v e fname (after_call o (query_output env st v e affected a))))
        (sym closed) (refl, refl)
  execute_on-Refuses st v e fname false affected s a g closed =
      subst
        (λ o. Refuses (
          recovered env st v e fname
            (after_call (discard env.service o) (update_output env st v e affected a))))
        (sym closed) (refl, refl)

  -- The struct of an initialized connection.
  abbrev conn_at : Option ℕ → ℕ → Headers → Pointer CConn
  conn_at context a args =
      some (some (record { context = context; cnxn = some a; init_args = args }))

  abbrev stmt_at : Option ℕ → Statement → ℕ → Pointer CStmt
  stmt_at context s a = some (some (record { context = context; stmt = some (s, a) }))

  -- A statement of a closed connection, by the flag of the driver.
  by_flag-Refuses :
      (v : World) (e' : Option AdbcError) (context : Option ℕ) (a : ℕ) (s : Statement)
      (out affected : Bool)
      → ClosedAt a v.connections
      → (poisoned : Bool)
      → Refuses (
          statement_execute_query env
            (record v { poisoned = poisoned })
            e'
            (stmt_at context s a)
            out
            affected)
  unfolding checked statement_execute_query check_stmt_init check_stmt_alloc new_context
      cancel_context
  by_flag-Refuses v e' context a s out affected t true = (refl, refl)
  by_flag-Refuses v e' context a s out affected (g, at_a, gone) false =
      let (v', ctx) = new_context (record v { poisoned = false }) context in
      let st = holding (record { context = some ctx; stmt = some (s, a) }) s a in
      let fname = codes "AdbcStatementExecuteQuery" in
      subst
        (λ o. Refuses (recovered env st v' e' fname (execute_on env st v' e' out affected s a o)))
        (sym at_a)
        (execute_on-Refuses st v' e' fname out affected s a g
          (no_client env.decimal_text env.service g.config g.conn s gone))

  release-ClosedAt :
      (e : Option AdbcError) (context : Option ℕ) (a : ℕ) (args : Headers) (g : GoConnection)
      → get_elem? w.connections a ≡ some g
      → let r = connection_release env calm e (conn_at context a args) in
        (r.struct ≡ some none) × ClosedAt a r.world.connections
  unfolding connection_release check_conn_alloc checked answer_error cancel_context close_connection
  release-ClosedAt e context a args g at_a =
      let closed = (close_connection env.service g.config g.conn).0 in
      rw at_a (
        refl,
        (
          record g { conn = closed },
          get_elem-set_connection w.connections a closed at_a,
          close_client-client env.service g.config g.conn g.conn.client refl,
        ),
      )

-- `SparkConnectionRelease` of an initialized connection, in a driver that has not panicked, frees the
-- struct even if closing the channel fails. From then on every statement on that connection refuses to
-- execute its query, with or without an output stream, whatever functions of the C interface are
-- called in between, on whatever structs: the status is ADBC_STATUS_INVALID_STATE and nothing is
-- exported.
pub connection_release-closes :
    (env : Env) (w : World) (e e' : Option AdbcError) (context stmt_context : Option ℕ) (a : ℕ)
    (args : Headers) (g : GoConnection) (s : Statement) (out affected : Bool)
    (later : List (AnyCall × Option AdbcError))
    → w.poisoned ≡ false
    → get_elem? w.connections a ≡ some g
    → let cnxn : Pointer CConn =
        some (some (record { context = context; cnxn = some a; init_args = args })) in
      let stmt : Pointer CStmt =
        some (some (record { context = stmt_context; stmt = some (s, a) })) in
      let r = connection_release env w e cnxn in
      let w' = run_any_calls env r.world later in
      (r.struct ≡ some none) × Refuses (statement_execute_query env w' e' stmt out affected)
connection_release-closes env w e e' context stmt_context a args g s out affected later calm' at_a =
    let (freed, t) =
      subst
        (λ v.
          let r = connection_release env v e (conn_at env w context a args) in
          (r.struct ≡ some none) × ClosedAt a r.world.connections)
        (ap (λ b. record w { poisoned = b }) (sym calm'))
        (release-ClosedAt env w e context a args g at_a) in
    let w' =
      run_any_calls env (connection_release env w e (conn_at env w context a args)).world later in
    (
      freed,
      by_flag-Refuses env w w' e' stmt_context a s out affected
          (run_any_calls-ClosedAt a env _ later t) w'.poisoned,
    )
