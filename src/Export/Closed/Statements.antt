-- ===== src/Export/Closed/Statements.antt =====
-- The functions of a statement leave closed connections closed.
use adbc_driver_spark.Base.{
  ℕ, Bool, true, false, ◌≡◌, refl, sym, subst, Option, none, some, Result, ok, err, if◌then◌else◌,
  get_elem?,
}
use adbc_driver_spark.Base.Text.{Text, codes}
use adbc_driver_spark.Adbc.{Status, GoError, Go}
use adbc_driver_spark.Connect.Client.{ResultReader}
use adbc_driver_spark.Spark.Database.{Connection}
use adbc_driver_spark.Spark.Statement.{
  Statement, Params, bind, bind_stream, execute_query, execute_update, execute_partitions,
  get_parameter_schema, prepare, set_option, set_sql_query, set_substrait_plan, discard,
  new_statement,
}
use adbc_driver_spark.Spark.Statement.Execution.{no_client}
use adbc_driver_spark.Export.Errors.{AdbcError}
use adbc_driver_spark.Export.World.{
  Env, GoConnection, World, CConn, CStmt, Pointer, reply, answer_error, complain, no_output,
  checked, cancel_context, new_context, check_stmt_alloc, success,
}
use adbc_driver_spark.Export.Statements.{
  made_statement, statement_on, make_stmt, statement_new, statement_release, statement_cancel,
  holding, statement_call, statement_context_call, statement_prepare, statement_set_sql_query,
  statement_set_substrait_plan, statement_set_option, statement_bind, statement_bind_stream,
  statement_get_parameter_schema, statement_execute_partitions, statement_execute_query,
  query_output, update_output, after_call, execute_on, drop_statement,
}
use adbc_driver_spark.Export.Statements.Options.{
  unsupported_method, statement_get_option, statement_get_option_bytes, statement_get_option_double,
  statement_get_option_int, statement_set_option_bytes, statement_set_option_double,
  statement_set_option_int, statement_execute_schema,
}
use adbc_driver_spark.Export.Databases.Phases.{OptionCall, DbCall, db_call}
use adbc_driver_spark.Export.Databases.Phases
use adbc_driver_spark.Export.Poisoned.{ConnCall, conn_call, StmtCall, stmt_call, stmt_option_call}
use adbc_driver_spark.Export.Poisoned
use adbc_driver_spark.Export.Closed.{
  ClosedAt, Stays, MaybeStays, set_connection-ClosedAt, recovered-Stays, checked-Stays,
  guarded-Stays,
}
use adbc_driver_spark.Export.Closed.Methods.{LeavesClosed}

module _ (a : ℕ) (env : Env) (e : Option AdbcError) where
  module _ (w : World) (t : ClosedAt a w.connections) where
    statement_call-Stays :
        (p : Pointer CStmt) (fname : Text) (m : Statement → Statement × Option GoError)
        → Stays a (statement_call env w e p fname m)
    unfolding answer_error
    statement_call-Stays p fname m = checked-Stays a p w _ _ t (λ x. t)

    statement_context_call-Stays :
        (p : Pointer CStmt) (fname : Text) (m : Statement → Statement × Option GoError)
        → Stays a (statement_context_call env w e p fname m)
    unfolding answer_error new_context cancel_context
    statement_context_call-Stays p fname m = checked-Stays a p w _ _ t (λ x. t)

    unsupported_method-Stays :
        (p : Pointer CStmt) (fname why : Text) → Stays a (unsupported_method env w e p fname why)
    unfolding complain
    unsupported_method-Stays p fname why = checked-Stays a p w _ _ t (λ x. t)

    option-Stays : (p : Pointer CStmt) (o : OptionCall) → Stays a (stmt_option_call env w e p o)
    unfolding statement_get_option statement_get_option_bytes statement_get_option_double
        statement_get_option_int statement_set_option_bytes statement_set_option_double
        statement_set_option_int
    option-Stays p Phases.get_option = unsupported_method-Stays p _ _
    option-Stays p Phases.get_option_bytes = unsupported_method-Stays p _ _
    option-Stays p Phases.get_option_double = unsupported_method-Stays p _ _
    option-Stays p Phases.get_option_int = unsupported_method-Stays p _ _
    option-Stays p Phases.set_option_bytes = unsupported_method-Stays p _ _
    option-Stays p Phases.set_option_double = unsupported_method-Stays p _ _
    option-Stays p Phases.set_option_int = unsupported_method-Stays p _ _

    made_statement-Stays : (b : ℕ) (o : Go Statement) → Stays a (made_statement env w e b o)
    unfolding answer_error
    made_statement-Stays b (err g) = t
    made_statement-Stays b (ok s) = t

    statement_on-Stays : (b : ℕ) (o : Option GoConnection) → MaybeStays a (statement_on env w e b o)
    statement_on-Stays b none = tt
    statement_on-Stays b (some g) = made_statement-Stays b (new_statement g.conn)

    free-Stays :
        (found : Result (Option AdbcError) (CConn × ℕ))
        → MaybeStays a (elim found [
          | err e' ↦ some (reply (some none) w (e', Status.invalid_state) no_output)
          | ok (conn, b) ↦ statement_on env w e b (get_elem? w.connections b)
        ])
    free-Stays (err e') = t
    free-Stays (ok (conn, b)) = statement_on-Stays b _

    make_stmt-Stays :
        (cnxn : Pointer CConn) (p : Pointer CStmt) → MaybeStays a (make_stmt env w e cnxn p)
    unfolding complain
    make_stmt-Stays cnxn none = tt
    make_stmt-Stays cnxn (some (some st)) = t
    make_stmt-Stays cnxn (some none) = free-Stays _

    release-Stays : (p : Pointer CStmt) → Stays a (statement_release env w e p)
    unfolding statement_release cancel_context complain
    release-Stays p = by_flag w.poisoned
      where
        by_flag :
            (poisoned : Bool)
            → Stays a (
                if poisoned
                then complain env p w e
                    (codes "AdbcStatementRelease: Go panicked, driver is in unknown state")
                    Status.internal
                else checked p w
                    (check_stmt_alloc env w e p (codes "AdbcStatementRelease"))
                    (λ st. success (some none) (drop_statement w st) e no_output))
        by_flag true = t
        by_flag false = checked-Stays a p w _ _ t (λ x. t)

    cancel-Stays : (p : Pointer CStmt) → Stays a (statement_cancel env w e p)
    unfolding statement_cancel cancel_context
    cancel-Stays p = checked-Stays a p w _ _ t (λ x. t)

    bind-Stays :
        (p : Pointer CStmt) (imported : Go Params) → Stays a (statement_bind env w e p imported)
    unfolding statement_bind
    bind-Stays p (err g) = statement_call-Stays p _ (λ s. (s, some g))
    bind-Stays p (ok values) = statement_context_call-Stays p _ (λ s. bind s (some values))

    bind_stream-Stays :
        (p : Pointer CStmt) (import_error : Option GoError)
        → Stays a (statement_bind_stream env w e p import_error)
    unfolding statement_bind_stream
    bind_stream-Stays p none = statement_context_call-Stays p _ (λ s. (s, some bind_stream))
    bind_stream-Stays p (some g) = statement_call-Stays p _ (λ s. (s, some g))

  -- A query or an update leaves a closed connection closed.
  execute_query-LeavesClosed :
      (g : GoConnection) (s : Statement)
      → g.conn.client ≡ none
      → LeavesClosed (execute_query env.decimal_text env.service g.config g.conn s)
  execute_query-LeavesClosed g s gone =
      subst LeavesClosed (sym (no_client env.decimal_text env.service g.config g.conn s gone)) gone

  execute_update-LeavesClosed :
      (g : GoConnection) (s : Statement)
      → g.conn.client ≡ none
      → LeavesClosed (execute_update env.decimal_text env.service g.config g.conn s)
  unfolding execute_update
  execute_update-LeavesClosed g s gone =
      subst (λ o. LeavesClosed (discard env.service o))
        (sym (no_client env.decimal_text env.service g.config g.conn s gone)) gone

  module _ (w : World) (t : ClosedAt a w.connections) (st : Pointer CStmt) (affected : Bool) where
    query_output-Stays :
        (b : ℕ) {g : GoConnection} (o : Option (Connection × Go ResultReader))
        → get_elem? w.connections b ≡ some g
        → (g.conn.client ≡ none → LeavesClosed o)
        → MaybeStays a (after_call o (query_output env st w e affected b))
    unfolding answer_error
    query_output-Stays b none at_b f = tt
    query_output-Stays b (some (c, err x)) at_b f =
        set_connection-ClosedAt a w.connections b c at_b f t
    query_output-Stays b (some (c, ok r)) at_b f =
        set_connection-ClosedAt a w.connections b c at_b f t

    update_output-Stays :
        (b : ℕ) {g : GoConnection} (o : Option (Connection × Option GoError))
        → get_elem? w.connections b ≡ some g
        → (g.conn.client ≡ none → LeavesClosed o)
        → MaybeStays a (after_call o (update_output env st w e affected b))
    unfolding answer_error
    update_output-Stays b none at_b f = tt
    update_output-Stays b (some (c, some x)) at_b f =
        set_connection-ClosedAt a w.connections b c at_b f t
    update_output-Stays b (some (c, none)) at_b f =
        set_connection-ClosedAt a w.connections b c at_b f t

    execute_on-Stays :
        (out : Bool) (s : Statement) (b : ℕ) (o : Option GoConnection)
        → get_elem? w.connections b ≡ o
        → MaybeStays a (execute_on env st w e out affected s b o)
    execute_on-Stays out s b none at_b = tt
    execute_on-Stays true s b (some g) at_b =
        query_output-Stays b _ at_b (execute_query-LeavesClosed g s)
    execute_on-Stays false s b (some g) at_b =
        update_output-Stays b _ at_b (execute_update-LeavesClosed g s)

  execute_query-Stays :
      (w : World) (p : Pointer CStmt) (out affected : Bool)
      → ClosedAt a w.connections
      → Stays a (statement_execute_query env w e p out affected)
  unfolding statement_execute_query new_context cancel_context
  execute_query-Stays w p out affected t = checked-Stays a p w _ _ t (λ (x : CStmt × Statement × ℕ).
      let (st, s, b) = x in
      let (w', ctx) = new_context w st.context in
      let st' = holding (record st { context = some ctx }) s b in
      recovered-Stays a env st' w' e _ _ t (execute_on-Stays w' t st' affected out s b _ refl))

  pub stmt_call-Stays :
      (w : World) (p : Pointer CStmt) (c : StmtCall)
      → ClosedAt a w.connections
      → Stays a (stmt_call env w e p c)
  unfolding statement_new statement_prepare statement_set_sql_query statement_set_substrait_plan
      statement_set_option statement_get_parameter_schema statement_execute_partitions
      statement_execute_schema
  stmt_call-Stays w p Poisoned.stmt_release t = release-Stays w t p
  stmt_call-Stays w p Poisoned.stmt_cancel t = cancel-Stays w t p
  stmt_call-Stays w p Poisoned.stmt_prepare t = statement_context_call-Stays w t p _ prepare
  stmt_call-Stays w p Poisoned.stmt_set_substrait_plan t =
      statement_call-Stays w t p _ (λ s. (s, some set_substrait_plan))
  stmt_call-Stays w p Poisoned.stmt_get_parameter_schema t =
      statement_call-Stays w t p _ (λ s. (s, some get_parameter_schema))
  stmt_call-Stays w p Poisoned.stmt_execute_partitions t =
      statement_context_call-Stays w t p _ (λ s. (s, some execute_partitions))
  stmt_call-Stays w p Poisoned.stmt_execute_schema t = unsupported_method-Stays w t p _ _
  stmt_call-Stays w p (Poisoned.stmt_new cnxn) t =
      guarded-Stays a env p w e _ _ w.poisoned _ t (make_stmt-Stays w t cnxn p)
  stmt_call-Stays w p (Poisoned.stmt_set_sql_query q) t =
      statement_call-Stays w t p _ (λ s. set_sql_query s q)
  stmt_call-Stays w p (Poisoned.stmt_set_option k) t =
      statement_call-Stays w t p _ (λ s. set_option s k)
  stmt_call-Stays w p (Poisoned.stmt_bind i) t = bind-Stays w t p i
  stmt_call-Stays w p (Poisoned.stmt_bind_stream i) t = bind_stream-Stays w t p i
  stmt_call-Stays w p (Poisoned.stmt_option o) t = option-Stays w t p o
  stmt_call-Stays w p (Poisoned.stmt_execute_query out n) t = execute_query-Stays w p out n t
