-- ===== src/Export/Contexts/Runs.antt =====
-- What each function of a statement does to the contexts, and sequences of them.
use adbc_driver_spark.Base.{
  ℕ, ◌-◌, Bool, true, false, ◌≡◌, refl, ap, ◌∙◌, Option, none, some, List, [], ◌∷◌, ◌++◌, Result,
  ok, err, arith, if◌then◌else◌, get_elem?,
}
use adbc_driver_spark.Base.Text.{Text, codes}
use adbc_driver_spark.Adbc.{Status, GoError, Go}
use adbc_driver_spark.Connect.Client.{ResultReader}
use adbc_driver_spark.Spark.Database.{Connection}
use adbc_driver_spark.Spark.Statement.{
  Statement, Params, bind, bind_stream, execute_query, execute_update, execute_partitions,
  get_parameter_schema, prepare, set_option, set_sql_query, set_substrait_plan,
}
use adbc_driver_spark.Export.Errors.{AdbcError}
use adbc_driver_spark.Export.World.{
  Env, GoConnection, World, CConn, CStmt, Pointer, no_output, reply, success, answer_error,
  complain, poison, recovered, also, cancel_context, new_context, checked, allocated,
  check_stmt_alloc, refusal, panicked_format,
}
use adbc_driver_spark.Export.Statements.{
  made_statement, statement_on, make_stmt, statement_new, statement_release, statement_cancel,
  holding, statement_prepare, statement_set_sql_query, statement_set_substrait_plan,
  statement_set_option, statement_bind, statement_bind_stream, statement_get_parameter_schema,
  statement_execute_partitions, statement_execute_query, query_output, update_output, after_call,
  execute_on, drop_statement,
}
use adbc_driver_spark.Export.Statements.Options.{
  statement_get_option, statement_get_option_bytes, statement_get_option_double,
  statement_get_option_int, statement_set_option_bytes, statement_set_option_double,
  statement_set_option_int, statement_execute_schema,
}
use adbc_driver_spark.Export.Databases.Phases.{OptionCall}
use adbc_driver_spark.Export.Databases.Phases
use adbc_driver_spark.Export.Poisoned.{StmtCall, stmt_call, stmt_option_call}
use adbc_driver_spark.Export.Poisoned
use adbc_driver_spark.Export.Contexts.{
  context_of, contexts_from, Tracks, Keeps, new_context-Tracks, cancel_context-Tracks, same-Tracks,
  checked-Keeps, statement_call-Keeps, statement_context_call-Keeps, unsupported_method-Keeps,
}

-- A sequence of calls on one handle, each with its error struct.
abbrev pub run_stmt_calls :
    Env → World → Pointer CStmt → List (StmtCall × Option AdbcError) → World × Pointer CStmt
run_stmt_calls env w p [] = (w, p)
run_stmt_calls env w p ((c, e) ∷ cs) =
    let r = stmt_call env w e p c in run_stmt_calls env r.world r.struct cs

module _ (start : ℕ) (base : List ℕ) where
  module _ (env : Env) (w : World) (e : Option AdbcError) where
    query_output-Keeps :
        (st : Pointer CStmt) (affected : Bool) (a : ℕ) (o : Option (Connection × Go ResultReader))
        (fname : Text)
        → Tracks start base w (context_of st)
        → Keeps start base
            (recovered env st w e fname (after_call o (query_output env st w e affected a)))
    unfolding poison answer_error
    query_output-Keeps st affected a none fname t = same-Tracks start base refl refl t
    query_output-Keeps st affected a (some (c, err g)) fname t = same-Tracks start base refl refl t
    query_output-Keeps st affected a (some (c, ok r)) fname t = same-Tracks start base refl refl t

    update_output-Keeps :
        (st : Pointer CStmt) (a : ℕ) (affected : Bool) (o : Option (Connection × Option GoError))
        (fname : Text)
        → Tracks start base w (context_of st)
        → Keeps start base
            (recovered env st w e fname (after_call o (update_output env st w e affected a)))
    unfolding poison answer_error
    update_output-Keeps st a affected none fname t = same-Tracks start base refl refl t
    update_output-Keeps st a affected (some (c, some g)) fname t =
        same-Tracks start base refl refl t
    update_output-Keeps st a affected (some (c, none)) fname t = same-Tracks start base refl refl t

    execute_on-Keeps :
        (st : Pointer CStmt) (out affected : Bool) (s : Statement) (a : ℕ) (g : Option GoConnection)
        (fname : Text)
        → Tracks start base w (context_of st)
        → Keeps start base (recovered env st w e fname (execute_on env st w e out affected s a g))
    unfolding poison
    execute_on-Keeps st out affected s a none fname t = same-Tracks start base refl refl t
    execute_on-Keeps st true affected s a (some g) fname t =
        query_output-Keeps st affected a
          (execute_query env.decimal_text env.service g.config g.conn s) fname t
    execute_on-Keeps st false affected s a (some g) fname t =
        update_output-Keeps st a affected
          (execute_update env.decimal_text env.service g.config g.conn s) fname t

    made_statement-Keeps :
        (a : ℕ) (o : Go Statement)
        → Tracks start base w none
        → Keeps start base (made_statement env w e a o)
    unfolding answer_error
    made_statement-Keeps a (err g) t = t
    made_statement-Keeps a (ok s) t = t

    statement_on-Keeps :
        (a : ℕ) (o : Option GoConnection)
        → Tracks start base w none
        → Keeps start base
            (recovered env (some none) w e (codes "AdbcStatementNew") (statement_on env w e a o))
    unfolding poison
    statement_on-Keeps a none t = same-Tracks start base refl refl t
    statement_on-Keeps a (some g) t = made_statement-Keeps a _ t

    -- The rest of `SparkStatementNew` on a free struct.
    free-Keeps :
        (found : Result (Option AdbcError) (CConn × ℕ))
        → Tracks start base w none
        → Keeps start base (
            recovered env (some none) w e (codes "AdbcStatementNew") (elim found [
              | err e' ↦ some (reply (some none) w (e', Status.invalid_state) no_output)
              | ok (conn, a) ↦ statement_on env w e a (get_elem? w.connections a)
            ]))
    free-Keeps (err e') t = t
    free-Keeps (ok (conn, a)) t = statement_on-Keeps a _ t

    make_stmt-Keeps :
        (cnxn : Pointer CConn) (p : Pointer CStmt)
        → Tracks start base w (context_of p)
        → Keeps start base
            (recovered env p w e (codes "AdbcStatementNew") (make_stmt env w e cnxn p))
    unfolding poison complain
    make_stmt-Keeps cnxn none t = same-Tracks start base refl refl t
    make_stmt-Keeps cnxn (some (some st)) t = t
    make_stmt-Keeps cnxn (some none) t = free-Keeps _ t

    new-Keeps :
        (cnxn : Pointer CConn) (p : Pointer CStmt)
        → Tracks start base w (context_of p)
        → Keeps start base (statement_new env w e cnxn p)
    unfolding statement_new complain
    new-Keeps cnxn p t = by_poison w.poisoned
      where
        by_poison :
            (poisoned : Bool)
            → Keeps start base (
                if poisoned
                then complain env p w e
                    (codes "AdbcStatementNew: Go panicked, driver is in unknown state")
                    Status.internal
                else recovered env p w e (codes "AdbcStatementNew") (make_stmt env w e cnxn p))
        by_poison true = t
        by_poison false = make_stmt-Keeps cnxn p t

  module _ (env : Env) (w : World) (e : Option AdbcError) where
    -- `SparkStatementRelease`, by the flag of the driver.
    released-Keeps :
        (poisoned : Bool) (p : Pointer CStmt)
        → Tracks start base w (context_of p)
        → Keeps start base (
            if poisoned
            then complain env p w e
                (codes "AdbcStatementRelease: Go panicked, driver is in unknown state")
                Status.internal
            else checked p w
                (if poisoned
                  then refusal env e panicked_format (codes "AdbcStatementRelease")
                  else allocated env e
                      (codes "%s: statement not allocated")
                      (codes "AdbcStatementRelease")
                      p)
                (λ st. success (some none) (drop_statement w st) e no_output))
    unfolding checked cancel_context complain
    released-Keeps true p t = t
    released-Keeps false none t = t
    released-Keeps false (some none) t = t
    released-Keeps false (some (some st)) t = record {
      made = t.made;
      count = t.count;
      covered = t.covered;
    }

    release-Keeps :
        (p : Pointer CStmt)
        → Tracks start base w (context_of p)
        → Keeps start base (statement_release env w e p)
    unfolding statement_release check_stmt_alloc
    release-Keeps p t = released-Keeps w.poisoned p t

    cancel-Keeps :
        (p : Pointer CStmt)
        → Tracks start base w (context_of p)
        → Keeps start base (statement_cancel env w e p)
    unfolding statement_cancel
    cancel-Keeps p t =
        checked-Keeps start base env w e p _ _ t
          (λ st s a u. cancel_context-Tracks start base w st.context u)

    execute_query-Keeps :
        (p : Pointer CStmt) (out affected : Bool)
        → Tracks start base w (context_of p)
        → Keeps start base (statement_execute_query env w e p out affected)
    unfolding statement_execute_query
    execute_query-Keeps p out affected t = checked-Keeps start base env w e p _ _ t (λ st s a u.
        let (w', ctx) = new_context w st.context in
        execute_on-Keeps env w' e (holding (record st { context = some ctx }) s a) out affected s a
          (get_elem? w'.connections a) (codes "AdbcStatementExecuteQuery")
          (new_context-Tracks start base w st.context u))

    bind-Keeps :
        (p : Pointer CStmt) (imported : Go Params)
        → Tracks start base w (context_of p)
        → Keeps start base (statement_bind env w e p imported)
    unfolding statement_bind
    bind-Keeps p (err g) t = statement_call-Keeps start base env w e p _ (λ s. (s, some g)) t
    bind-Keeps p (ok values) t =
        statement_context_call-Keeps start base env w e p _ (λ s. bind s (some values)) t

    bind_stream-Keeps :
        (p : Pointer CStmt) (import_error : Option GoError)
        → Tracks start base w (context_of p)
        → Keeps start base (statement_bind_stream env w e p import_error)
    unfolding statement_bind_stream
    bind_stream-Keeps p none t =
        statement_context_call-Keeps start base env w e p _ (λ s. (s, some bind_stream)) t
    bind_stream-Keeps p (some g) t =
        statement_call-Keeps start base env w e p _ (λ s. (s, some g)) t

    option-Keeps :
        (p : Pointer CStmt) (o : OptionCall)
        → Tracks start base w (context_of p)
        → Keeps start base (stmt_option_call env w e p o)
    unfolding statement_get_option statement_get_option_bytes statement_get_option_double
        statement_get_option_int statement_set_option_bytes statement_set_option_double
        statement_set_option_int
    option-Keeps p Phases.get_option t = unsupported_method-Keeps start base env w e p _ _ t
    option-Keeps p Phases.get_option_bytes t = unsupported_method-Keeps start base env w e p _ _ t
    option-Keeps p Phases.get_option_double t = unsupported_method-Keeps start base env w e p _ _ t
    option-Keeps p Phases.get_option_int t = unsupported_method-Keeps start base env w e p _ _ t
    option-Keeps p Phases.set_option_bytes t = unsupported_method-Keeps start base env w e p _ _ t
    option-Keeps p Phases.set_option_double t = unsupported_method-Keeps start base env w e p _ _ t
    option-Keeps p Phases.set_option_int t = unsupported_method-Keeps start base env w e p _ _ t

    stmt_call-Keeps :
        (p : Pointer CStmt) (c : StmtCall)
        → Tracks start base w (context_of p)
        → Keeps start base (stmt_call env w e p c)
    unfolding statement_prepare statement_set_sql_query statement_set_substrait_plan
        statement_set_option statement_get_parameter_schema statement_execute_partitions
        statement_execute_schema
    stmt_call-Keeps p Poisoned.stmt_release t = release-Keeps p t
    stmt_call-Keeps p Poisoned.stmt_cancel t = cancel-Keeps p t
    stmt_call-Keeps p Poisoned.stmt_prepare t =
        statement_context_call-Keeps start base env w e p _ prepare t
    stmt_call-Keeps p Poisoned.stmt_set_substrait_plan t =
        statement_call-Keeps start base env w e p _ (λ s. (s, some set_substrait_plan)) t
    stmt_call-Keeps p Poisoned.stmt_get_parameter_schema t =
        statement_call-Keeps start base env w e p _ (λ s. (s, some get_parameter_schema)) t
    stmt_call-Keeps p Poisoned.stmt_execute_partitions t =
        statement_context_call-Keeps start base env w e p _ (λ s. (s, some execute_partitions)) t
    stmt_call-Keeps p Poisoned.stmt_execute_schema t =
        unsupported_method-Keeps start base env w e p _ _ t
    stmt_call-Keeps p (Poisoned.stmt_new cnxn) t = new-Keeps env w e cnxn p t
    stmt_call-Keeps p (Poisoned.stmt_set_sql_query q) t =
        statement_call-Keeps start base env w e p _ (λ s. set_sql_query s q) t
    stmt_call-Keeps p (Poisoned.stmt_set_option k) t =
        statement_call-Keeps start base env w e p _ (λ s. set_option s k) t
    stmt_call-Keeps p (Poisoned.stmt_bind i) t = bind-Keeps p i t
    stmt_call-Keeps p (Poisoned.stmt_bind_stream i) t = bind_stream-Keeps p i t
    stmt_call-Keeps p (Poisoned.stmt_option o) t = option-Keeps p o t
    stmt_call-Keeps p (Poisoned.stmt_execute_query out n) t = execute_query-Keeps p out n t

  run-Tracks :
      (env : Env) (w : World) (p : Pointer CStmt) (cs : List (StmtCall × Option AdbcError))
      → Tracks start base w (context_of p)
      → let (w', p') = run_stmt_calls env w p cs in Tracks start base w' (context_of p')
  run-Tracks env w p [] t = t
  run-Tracks env w p ((c, e) ∷ cs) t =
      let r = stmt_call env w e p c in
      run-Tracks env r.world r.struct cs (stmt_call-Keeps env w e p c t)

-- Whatever functions are called on a statement's handle that is not allocated yet, with whatever
-- outcomes: of the contexts that they make all are cancelled, each once and in the order in which they
-- were made, but for the newest one if it is the current context of the handle; no other context is
-- cancelled. So at most one call of the statement can still run.
pub run_stmt_calls-cancelled :
    (env : Env) (w : World) (cs : List (StmtCall × Option AdbcError))
    → let (w', p) = run_stmt_calls env w (some none) cs in
      also (context_of p) w'.cancelled
      ≡ contexts_from w.contexts (w'.contexts - w.contexts) ++ w.cancelled
run_stmt_calls-cancelled env w cs =
    let t =
      run-Tracks w.contexts w.cancelled env w (some none) cs
        (record { made = 0; count = omega arith; covered = refl }) in
    t.covered ∙ ap (λ n. contexts_from w.contexts n ++ w.cancelled) (omega (arith, t.count))
