-- ===== src/Export/Statements.antt =====
-- c/driver.go: the functions of a struct AdbcStatement. Spark's statement has none of the optional
-- methods of adbc.Statement (`GetSetOptions`, `StatementExecuteSchema`). What `cdata` makes of the
-- caller's Arrow structs is an argument.
pub mod Options
pub mod Queries
use adbc_driver_spark.Base.{
  ℕ, Bool, true, false, Option, none, some, List, [], ◌∷◌, Result, ok, err, if◌then◌else◌,
  get_elem?,
}
use adbc_driver_spark.Base.Int.{ℤ, negsuc}
use adbc_driver_spark.Base.Text.{Text, codes}
use adbc_driver_spark.Adbc.{Status, GoError, Go}
use adbc_driver_spark.Connect.Config.{Config}
use adbc_driver_spark.Connect.Client.{ResultReader}
use adbc_driver_spark.Spark.Database.{Connection}
use adbc_driver_spark.Spark.Statement.{
  Params, Statement, new_statement, close_statement, set_option, set_sql_query, prepare, bind,
  execute_query, execute_update, set_substrait_plan, bind_stream, get_parameter_schema,
  execute_partitions,
}
use adbc_driver_spark.Export.Errors.{AdbcError}
use adbc_driver_spark.Export.Streams.{hand_over}
use adbc_driver_spark.Export.World.{
  Env, GoConnection, World, CConn, CStmt, Pointer, Output, no_output, result_stream, rows_affected,
  Reply, reply, success, answer_error, complain, poison, recovered, cancel_context, new_context,
  check_conn_init, check_stmt_alloc, check_stmt_init, checked,
}
use adbc_driver_spark.Export.Connections.{put}

-- The end of `SparkStatementNew`.
abbrev pub made_statement : Env → World → Option AdbcError → ℕ → Go Statement → Reply CStmt
made_statement env w e a (err g) = answer_error env (some none) w e (some g)
made_statement env w e a (ok s) =
    success (some (some (record { context = none; stmt = some (s, a) }))) w e no_output

-- `conn.cnxn.NewStatement()`; an address outside the store cannot occur.
abbrev pub statement_on :
    Env → World → Option AdbcError → ℕ → Option GoConnection → Option (Reply CStmt)
statement_on env w e a none = none
statement_on env w e a (some g) = some (made_statement env w e a (new_statement g.conn))

-- What `SparkStatementNew` does with the pointer, which panics if it is null.
abbrev pub make_stmt :
    Env → World → Option AdbcError → Pointer CConn → Pointer CStmt → Option (Reply CStmt)
make_stmt env w e cnxn none = none
make_stmt env w e cnxn (some (some st)) = some (
    complain env (some (some st)) w e (codes "AdbcStatementNew: statement already allocated")
      Status.invalid_state)
make_stmt env w e cnxn (some none) =
    elim (check_conn_init env w e cnxn (codes "AdbcStatementNew")) [
      | err e' ↦ some (reply (some none) w (e', Status.invalid_state) no_output)
      | ok (conn, a) ↦ statement_on env w e a (get_elem? w.connections a)
    ]

-- `SparkStatementNew`
unfoldable pub statement_new :
    Env → World → Option AdbcError → Pointer CConn → Pointer CStmt → Reply CStmt
unfolding complain poison check_conn_init checked answer_error new_statement
statement_new env w e cnxn stmt =
    if w.poisoned
    then complain env stmt w e (codes "AdbcStatementNew: Go panicked, driver is in unknown state")
        Status.internal
    else recovered env stmt w e (codes "AdbcStatementNew") (make_stmt env w e cnxn stmt)

-- The statement of a struct after its `Close`.
abbrev pub closed_of : Option (Statement × ℕ) → List Statement → List Statement
closed_of none l = l
closed_of (some (s, _)) l = close_statement s ∷ l

-- `Close`, which never fails, and the deferred `cancelContext`.
abbrev pub drop_statement : World → CStmt → World
drop_statement w st = cancel_context (record w { closed = closed_of st.stmt w.closed }) st.context

-- `SparkStatementRelease`
unfoldable pub statement_release : Env → World → Option AdbcError → Pointer CStmt → Reply CStmt
unfolding complain check_stmt_alloc checked cancel_context close_statement
statement_release env w e stmt =
    if w.poisoned
    then complain env stmt w e
        (codes "AdbcStatementRelease: Go panicked, driver is in unknown state") Status.internal
    else checked stmt w (check_stmt_alloc env w e stmt (codes "AdbcStatementRelease"))
        (λ st. success (some none) (drop_statement w st) e no_output)

-- `SparkStatementCancel`
unfoldable pub statement_cancel : Env → World → Option AdbcError → Pointer CStmt → Reply CStmt
unfolding check_stmt_init checked cancel_context
statement_cancel env w e stmt =
    checked stmt w (check_stmt_init env w e stmt (codes "AdbcStatementCancel")) (λ (st, s, a).
      success (some (some (record st { context = none }))) (cancel_context w st.context) e
        no_output)

-- The struct of a statement with the statement as a method leaves it.
abbrev pub holding : CStmt → Statement → ℕ → Pointer CStmt
holding st s a = some (some (record st { stmt = some (s, a) }))

-- A function that calls a method of the statement without a context.
abbrev pub statement_call :
    Env
    → World
    → Option AdbcError
    → Pointer CStmt
    → Text
    → (Statement → Statement × Option GoError)
    → Reply CStmt
statement_call env w e stmt fname m =
    checked stmt w (check_stmt_init env w e stmt fname)
      (λ (st, s, a). let (s', o) = m s in answer_error env (holding st s' a) w e o)

-- A function that calls a method of the statement with a new context.
abbrev pub statement_context_call :
    Env
    → World
    → Option AdbcError
    → Pointer CStmt
    → Text
    → (Statement → Statement × Option GoError)
    → Reply CStmt
statement_context_call env w e stmt fname m =
    checked stmt w (check_stmt_init env w e stmt fname) (λ (st, s, a).
      let (w', ctx) = new_context w st.context in
      let (s', o) = m s in
      answer_error env (holding (record st { context = some ctx }) s' a) w' e o)

-- `SparkStatementPrepare`
unfoldable pub statement_prepare : Env → World → Option AdbcError → Pointer CStmt → Reply CStmt
unfolding check_stmt_init checked new_context answer_error prepare
statement_prepare env w e stmt =
    statement_context_call env w e stmt (codes "AdbcStatementPrepare") prepare

-- `SparkStatementSetSqlQuery`; a null query is the empty text.
unfoldable pub statement_set_sql_query :
    Env → World → Option AdbcError → Pointer CStmt → Text → Reply CStmt
unfolding check_stmt_init checked answer_error set_sql_query
statement_set_sql_query env w e stmt query =
    statement_call env w e stmt (codes "AdbcStatementSetSqlQuery") (λ s. set_sql_query s query)

-- `SparkStatementSetSubstraitPlan`
unfoldable pub statement_set_substrait_plan :
    Env → World → Option AdbcError → Pointer CStmt → Reply CStmt
unfolding check_stmt_init checked answer_error set_substrait_plan
statement_set_substrait_plan env w e stmt =
    statement_call env w e stmt (codes "AdbcStatementSetSubstraitPlan")
      (λ s. (s, some set_substrait_plan))

-- `SparkStatementSetOption`
unfoldable pub statement_set_option :
    Env → World → Option AdbcError → Pointer CStmt → Text → Reply CStmt
unfolding check_stmt_init checked answer_error set_option
statement_set_option env w e stmt key =
    statement_call env w e stmt (codes "AdbcStatementSetOption") (λ s. set_option s key)

-- `SparkStatementBind`; the record that it imports is released at the end, and the caller's array if
-- it cannot be imported.
unfoldable pub statement_bind :
    Env → World → Option AdbcError → Pointer CStmt → Go Params → Reply CStmt
unfolding check_stmt_init checked new_context answer_error bind
statement_bind env w e stmt imported = elim imported [
  | err g ↦ statement_call env w e stmt (codes "AdbcStatementBind") (λ s. (s, some g))
  | ok values ↦
      statement_context_call env w e stmt (codes "AdbcStatementBind") (λ s. bind s (some values))
]

-- `SparkStatementBindStream`
unfoldable pub statement_bind_stream :
    Env → World → Option AdbcError → Pointer CStmt → Option GoError → Reply CStmt
unfolding check_stmt_init checked new_context answer_error bind_stream
statement_bind_stream env w e stmt import_error = elim import_error [
  | some g ↦ statement_call env w e stmt (codes "AdbcStatementBindStream") (λ s. (s, some g))
  | none ↦
      statement_context_call env w e stmt (codes "AdbcStatementBindStream")
        (λ s. (s, some bind_stream))
]

-- `SparkStatementGetParameterSchema`
unfoldable pub statement_get_parameter_schema :
    Env → World → Option AdbcError → Pointer CStmt → Reply CStmt
unfolding check_stmt_init checked answer_error get_parameter_schema
statement_get_parameter_schema env w e stmt =
    statement_call env w e stmt (codes "AdbcStatementGetParameterSchema")
      (λ s. (s, some get_parameter_schema))

-- `SparkStatementExecutePartitions`, whose method always fails.
unfoldable pub statement_execute_partitions :
    Env → World → Option AdbcError → Pointer CStmt → Reply CStmt
unfolding check_stmt_init checked new_context answer_error execute_partitions
statement_execute_partitions env w e stmt =
    statement_context_call env w e stmt (codes "AdbcStatementExecutePartitions")
      (λ s. (s, some execute_partitions))

-- The count of rows, which the driver never knows, where the caller asks for it.
abbrev pub count_output : Bool → Option ℤ
count_output affected = if affected then some (negsuc 0) else none

abbrev pub affected_output : Bool → Output
affected_output affected = if affected then rows_affected (negsuc 0) else no_output

abbrev pub query_output :
    Env
    → Pointer CStmt
    → World
    → Option AdbcError
    → Bool
    → ℕ
    → Connection × Go ResultReader
    → Reply CStmt
query_output env st w e affected a (c, err g) = answer_error env st (put w a c) e (some g)
query_output env st w e affected a (c, ok r) =
    success st (put w a c) e (result_stream (count_output affected) (hand_over r))

abbrev pub update_output :
    Env
    → Pointer CStmt
    → World
    → Option AdbcError
    → Bool
    → ℕ
    → Connection × Option GoError
    → Reply CStmt
update_output env st w e affected a (c, some g) = answer_error env st (put w a c) e (some g)
update_output env st w e affected a (c, none) = success st (put w a c) e (affected_output affected)

abbrev pub after_call : {A : Type 0} → Option A → (A → Reply CStmt) → Option (Reply CStmt)
after_call none f = none
after_call (some x) f = some (f x)

-- The branches of `SparkStatementExecuteQuery`: without an output stream it runs an update. An address
-- outside the store cannot occur.
abbrev pub execute_on :
    Env
    → Pointer CStmt
    → World
    → Option AdbcError
    → Bool
    → Bool
    → Statement
    → ℕ
    → Option GoConnection
    → Option (Reply CStmt)
execute_on env st w e out affected s a none = none
execute_on env st w e true affected s a (some g) =
    after_call (execute_query env.decimal_text env.service g.config g.conn s)
      (query_output env st w e affected a)
execute_on env st w e false affected s a (some g) =
    after_call (execute_update env.decimal_text env.service g.config g.conn s)
      (update_output env st w e affected a)

-- `SparkStatementExecuteQuery`; `out` and `affected` say that the pointers are not null.
unfoldable pub statement_execute_query :
    Env → World → Option AdbcError → Pointer CStmt → Bool → Bool → Reply CStmt
unfolding check_stmt_init checked new_context answer_error poison execute_query execute_update
    hand_over
statement_execute_query env w e stmt out affected =
    checked stmt w (check_stmt_init env w e stmt (codes "AdbcStatementExecuteQuery")) (λ (st, s, a).
      let (w', ctx) = new_context w st.context in
      let st' = holding (record st { context = some ctx }) s a in
      recovered env st' w' e (codes "AdbcStatementExecuteQuery")
        (execute_on env st' w' e out affected s a (get_elem? w'.connections a)))
