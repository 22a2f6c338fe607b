-- ===== src/Export/Poisoned.antt =====
-- The functions of the C interface once the driver has panicked.
use adbc_driver_spark.Base.{
  ℕ, Bool, true, ◌≡◌, ◌⊎◌, inl, inr, refl, sym, ap, subst, Option, none, some, List, ok, err,
}
use adbc_driver_spark.Base.Text.{Text}
use adbc_driver_spark.Adbc.{Status, GoError, Go}
use adbc_driver_spark.Spark.Objects.{Depth}
use adbc_driver_spark.Spark.Statement.{Params}
use adbc_driver_spark.Export.Errors.{AdbcError}
use adbc_driver_spark.Export.World.{
  Env, World, CDatabase, CConn, CStmt, Pointer, Reply, complain, checked, check_db_alloc,
  check_db_init, check_conn_alloc, check_conn_init, check_stmt_alloc, check_stmt_init,
}
use adbc_driver_spark.Export.Databases.{
  database_new, database_init, database_release, database_set_option, database_get_option,
  database_get_option_bytes, database_get_option_double, database_get_option_int,
  database_set_option_bytes, database_set_option_double, database_set_option_int,
}
use adbc_driver_spark.Export.Databases.Phases
use adbc_driver_spark.Export.Databases.Phases.{OptionCall, DbCall, db_call, db_option_call}
use adbc_driver_spark.Export.Connections.{
  connection_new, connection_set_option, connection_init, connection_release, connection_cancel,
  connection_call,
}
use adbc_driver_spark.Export.Connections.Options.{
  connection_get_option, connection_get_option_bytes, connection_get_option_double,
  connection_get_option_int, connection_set_option_bytes, connection_set_option_double,
  connection_set_option_int, connection_get_statistics, connection_get_statistic_names,
}
use adbc_driver_spark.Export.Connections.Calls.{
  connection_get_info, connection_get_objects, connection_get_table_schema,
  connection_get_table_types, connection_read_partition, connection_commit, connection_rollback,
}
use adbc_driver_spark.Export.Statements.{
  statement_new, statement_release, statement_cancel, statement_prepare, statement_set_sql_query,
  statement_set_substrait_plan, statement_set_option, statement_bind, statement_bind_stream,
  statement_get_parameter_schema, statement_execute_partitions, statement_execute_query,
}
use adbc_driver_spark.Export.Statements.Options.{
  statement_get_option, statement_get_option_bytes, statement_get_option_double,
  statement_get_option_int, statement_set_option_bytes, statement_set_option_double,
  statement_set_option_int, statement_execute_schema,
}

-- The functions of a connection, with their arguments.
pub data ConnCall : Type 0 where
  conn_new conn_release conn_cancel conn_get_statistics conn_get_statistic_names conn_commit
        conn_rollback :
      ConnCall
  conn_set : Text → Text → ConnCall
  conn_init : Pointer CDatabase → ConnCall
  conn_option : OptionCall → ConnCall
  conn_get_info : List ℕ → Bool → ConnCall
  conn_get_objects :
      Depth → Option Text → Option Text → Option Text → List Text → Option Text → Bool → ConnCall
  conn_get_table_schema : Option Text → Option Text → Text → Bool → ConnCall
  conn_get_table_types conn_read_partition : Bool → ConnCall

abbrev pub conn_option_call :
    Env → World → Option AdbcError → Pointer CConn → OptionCall → Reply CConn
conn_option_call env w e p Phases.get_option = connection_get_option env w e p
conn_option_call env w e p Phases.get_option_bytes = connection_get_option_bytes env w e p
conn_option_call env w e p Phases.get_option_double = connection_get_option_double env w e p
conn_option_call env w e p Phases.get_option_int = connection_get_option_int env w e p
conn_option_call env w e p Phases.set_option_bytes = connection_set_option_bytes env w e p
conn_option_call env w e p Phases.set_option_double = connection_set_option_double env w e p
conn_option_call env w e p Phases.set_option_int = connection_set_option_int env w e p

abbrev pub conn_call : Env → World → Option AdbcError → Pointer CConn → ConnCall → Reply CConn
conn_call env w e p conn_new = connection_new env w e p
conn_call env w e p conn_release = connection_release env w e p
conn_call env w e p conn_cancel = connection_cancel env w e p
conn_call env w e p conn_get_statistics = connection_get_statistics env w e p
conn_call env w e p conn_get_statistic_names = connection_get_statistic_names env w e p
conn_call env w e p conn_commit = connection_commit env w e p
conn_call env w e p conn_rollback = connection_rollback env w e p
conn_call env w e p (conn_set k v) = connection_set_option env w e p k v
conn_call env w e p (conn_init db) = connection_init env w e p db
conn_call env w e p (conn_option o) = conn_option_call env w e p o
conn_call env w e p (conn_get_info l out) = connection_get_info env w e p l out
conn_call env w e p (conn_get_objects d c s t l n out) =
    connection_get_objects env w e p d c s t l n out
conn_call env w e p (conn_get_table_schema c s t out) =
    connection_get_table_schema env w e p c s t out
conn_call env w e p (conn_get_table_types out) = connection_get_table_types env w e p out
conn_call env w e p (conn_read_partition out) = connection_read_partition env w e p out

-- The functions of a statement, with their arguments.
pub data StmtCall : Type 0 where
  stmt_release stmt_cancel stmt_prepare stmt_set_substrait_plan stmt_get_parameter_schema : StmtCall
  stmt_execute_partitions stmt_execute_schema : StmtCall
  stmt_new : Pointer CConn → StmtCall
  stmt_set_sql_query stmt_set_option : Text → StmtCall
  stmt_bind : Go Params → StmtCall
  stmt_bind_stream : Option GoError → StmtCall
  stmt_option : OptionCall → StmtCall
  stmt_execute_query : Bool → Bool → StmtCall

abbrev pub stmt_option_call :
    Env → World → Option AdbcError → Pointer CStmt → OptionCall → Reply CStmt
stmt_option_call env w e p Phases.get_option = statement_get_option env w e p
stmt_option_call env w e p Phases.get_option_bytes = statement_get_option_bytes env w e p
stmt_option_call env w e p Phases.get_option_double = statement_get_option_double env w e p
stmt_option_call env w e p Phases.get_option_int = statement_get_option_int env w e p
stmt_option_call env w e p Phases.set_option_bytes = statement_set_option_bytes env w e p
stmt_option_call env w e p Phases.set_option_double = statement_set_option_double env w e p
stmt_option_call env w e p Phases.set_option_int = statement_set_option_int env w e p

abbrev pub stmt_call : Env → World → Option AdbcError → Pointer CStmt → StmtCall → Reply CStmt
stmt_call env w e p stmt_release = statement_release env w e p
stmt_call env w e p stmt_cancel = statement_cancel env w e p
stmt_call env w e p stmt_prepare = statement_prepare env w e p
stmt_call env w e p stmt_set_substrait_plan = statement_set_substrait_plan env w e p
stmt_call env w e p stmt_get_parameter_schema = statement_get_parameter_schema env w e p
stmt_call env w e p stmt_execute_partitions = statement_execute_partitions env w e p
stmt_call env w e p stmt_execute_schema = statement_execute_schema env w e p
stmt_call env w e p (stmt_new cnxn) = statement_new env w e cnxn p
stmt_call env w e p (stmt_set_sql_query q) = statement_set_sql_query env w e p q
stmt_call env w e p (stmt_set_option k) = statement_set_option env w e p k
stmt_call env w e p (stmt_bind i) = statement_bind env w e p i
stmt_call env w e p (stmt_bind_stream i) = statement_bind_stream env w e p i
stmt_call env w e p (stmt_option o) = stmt_option_call env w e p o
stmt_call env w e p (stmt_execute_query out n) = statement_execute_query env w e p out n

-- The call has done nothing and says so.
pub record IsRefused {S : Type 0} (p : Pointer S) (w : World) (r : Reply S) : Type 0 where
  pub same_struct : r.struct ≡ p
  pub same_world : r.world ≡ w
  pub status : (r.code ≡ Status.invalid_state) ⊎ (r.code ≡ Status.internal)

module _ (env : Env) (w : World) (e : Option AdbcError) where
  abbrev panicked : World
  panicked = record w { poisoned = true }

  state-IsRefused :
      {S : Type 0} {p : Pointer S} {r : Reply S}
      → r.struct ≡ p
      → r.world ≡ panicked
      → r.code ≡ Status.invalid_state
      → IsRefused p panicked r
  state-IsRefused a b c = record { same_struct = a; same_world = b; status = inl c }

  internal-IsRefused :
      {S : Type 0} {p : Pointer S} {r : Reply S}
      → r.struct ≡ p
      → r.world ≡ panicked
      → r.code ≡ Status.internal
      → IsRefused p panicked r
  internal-IsRefused a b c = record { same_struct = a; same_world = b; status = inr c }

  db_option-IsRefused :
      (p : Pointer CDatabase) (o : OptionCall)
      → IsRefused p panicked (db_option_call env panicked e p o)
  unfolding check_db_init check_db_alloc checked database_get_option database_get_option_bytes
      database_get_option_double database_get_option_int database_set_option_bytes
      database_set_option_double database_set_option_int
  db_option-IsRefused p Phases.get_option = state-IsRefused refl refl refl
  db_option-IsRefused p Phases.get_option_bytes = state-IsRefused refl refl refl
  db_option-IsRefused p Phases.get_option_double = state-IsRefused refl refl refl
  db_option-IsRefused p Phases.get_option_int = state-IsRefused refl refl refl
  db_option-IsRefused p Phases.set_option_bytes = state-IsRefused refl refl refl
  db_option-IsRefused p Phases.set_option_double = state-IsRefused refl refl refl
  db_option-IsRefused p Phases.set_option_int = state-IsRefused refl refl refl

  db-IsRefused :
      (p : Pointer CDatabase) (c : DbCall) → IsRefused p panicked (db_call env panicked e p c)
  unfolding check_db_alloc checked complain database_new database_init database_release
      database_set_option
  db-IsRefused p Phases.call_new = internal-IsRefused refl refl refl
  db-IsRefused p Phases.call_init = state-IsRefused refl refl refl
  db-IsRefused p Phases.call_release = state-IsRefused refl refl refl
  db-IsRefused p (Phases.call_set_option k v) = state-IsRefused refl refl refl
  db-IsRefused p (Phases.call_option o) = db_option-IsRefused p o

  conn_option-IsRefused :
      (p : Pointer CConn) (o : OptionCall)
      → IsRefused p panicked (conn_option_call env panicked e p o)
  unfolding check_conn_init check_conn_alloc checked connection_get_option
      connection_get_option_bytes connection_get_option_double connection_get_option_int
      connection_set_option_bytes connection_set_option_double connection_set_option_int
  conn_option-IsRefused p Phases.get_option = state-IsRefused refl refl refl
  conn_option-IsRefused p Phases.get_option_bytes = state-IsRefused refl refl refl
  conn_option-IsRefused p Phases.get_option_double = state-IsRefused refl refl refl
  conn_option-IsRefused p Phases.get_option_int = state-IsRefused refl refl refl
  conn_option-IsRefused p Phases.set_option_bytes = state-IsRefused refl refl refl
  conn_option-IsRefused p Phases.set_option_double = state-IsRefused refl refl refl
  conn_option-IsRefused p Phases.set_option_int = state-IsRefused refl refl refl

  conn-IsRefused :
      (p : Pointer CConn) (c : ConnCall) → IsRefused p panicked (conn_call env panicked e p c)
  unfolding check_conn_init check_conn_alloc checked complain connection_new connection_release
      connection_cancel connection_get_statistics connection_get_statistic_names connection_commit
      connection_rollback connection_set_option connection_init connection_call connection_get_info
      connection_get_objects connection_get_table_schema connection_get_table_types
      connection_read_partition
  conn-IsRefused p conn_new = internal-IsRefused refl refl refl
  conn-IsRefused p conn_release = state-IsRefused refl refl refl
  conn-IsRefused p conn_cancel = state-IsRefused refl refl refl
  conn-IsRefused p conn_get_statistics = state-IsRefused refl refl refl
  conn-IsRefused p conn_get_statistic_names = state-IsRefused refl refl refl
  conn-IsRefused p conn_commit = state-IsRefused refl refl refl
  conn-IsRefused p conn_rollback = state-IsRefused refl refl refl
  conn-IsRefused p (conn_set k v) = state-IsRefused refl refl refl
  conn-IsRefused p (conn_init db) = state-IsRefused refl refl refl
  conn-IsRefused p (conn_option o) = conn_option-IsRefused p o
  conn-IsRefused p (conn_get_info l out) = state-IsRefused refl refl refl
  conn-IsRefused p (conn_get_objects d c s t l n out) = state-IsRefused refl refl refl
  conn-IsRefused p (conn_get_table_schema c s t out) = state-IsRefused refl refl refl
  conn-IsRefused p (conn_get_table_types out) = state-IsRefused refl refl refl
  conn-IsRefused p (conn_read_partition out) = state-IsRefused refl refl refl

  stmt_option-IsRefused :
      (p : Pointer CStmt) (o : OptionCall)
      → IsRefused p panicked (stmt_option_call env panicked e p o)
  unfolding check_stmt_init check_stmt_alloc checked statement_get_option statement_get_option_bytes
      statement_get_option_double statement_get_option_int statement_set_option_bytes
      statement_set_option_double statement_set_option_int
  stmt_option-IsRefused p Phases.get_option = state-IsRefused refl refl refl
  stmt_option-IsRefused p Phases.get_option_bytes = state-IsRefused refl refl refl
  stmt_option-IsRefused p Phases.get_option_double = state-IsRefused refl refl refl
  stmt_option-IsRefused p Phases.get_option_int = state-IsRefused refl refl refl
  stmt_option-IsRefused p Phases.set_option_bytes = state-IsRefused refl refl refl
  stmt_option-IsRefused p Phases.set_option_double = state-IsRefused refl refl refl
  stmt_option-IsRefused p Phases.set_option_int = state-IsRefused refl refl refl

  stmt-IsRefused :
      (p : Pointer CStmt) (c : StmtCall) → IsRefused p panicked (stmt_call env panicked e p c)
  unfolding check_stmt_init check_stmt_alloc checked complain statement_new statement_release
      statement_cancel statement_prepare statement_set_sql_query statement_set_substrait_plan
      statement_set_option statement_bind statement_bind_stream statement_get_parameter_schema
      statement_execute_partitions statement_execute_schema statement_execute_query
  stmt-IsRefused p stmt_release = internal-IsRefused refl refl refl
  stmt-IsRefused p (stmt_new c) = internal-IsRefused refl refl refl
  stmt-IsRefused p stmt_cancel = state-IsRefused refl refl refl
  stmt-IsRefused p stmt_prepare = state-IsRefused refl refl refl
  stmt-IsRefused p stmt_set_substrait_plan = state-IsRefused refl refl refl
  stmt-IsRefused p stmt_get_parameter_schema = state-IsRefused refl refl refl
  stmt-IsRefused p stmt_execute_partitions = state-IsRefused refl refl refl
  stmt-IsRefused p stmt_execute_schema = state-IsRefused refl refl refl
  stmt-IsRefused p (stmt_set_sql_query q) = state-IsRefused refl refl refl
  stmt-IsRefused p (stmt_set_option k) = state-IsRefused refl refl refl
  stmt-IsRefused p (stmt_bind (err g)) = state-IsRefused refl refl refl
  stmt-IsRefused p (stmt_bind (ok v)) = state-IsRefused refl refl refl
  stmt-IsRefused p (stmt_bind_stream none) = state-IsRefused refl refl refl
  stmt-IsRefused p (stmt_bind_stream (some g)) = state-IsRefused refl refl refl
  stmt-IsRefused p (stmt_execute_query out n) = state-IsRefused refl refl refl
  stmt-IsRefused p (stmt_option o) = stmt_option-IsRefused p o

-- Once the driver has panicked, every function of a database, a connection and a statement returns
-- ADBC_STATUS_INVALID_STATE or ADBC_STATUS_INTERNAL, whatever its arguments, and changes neither the
-- caller's struct nor the driver: no later call can undo this.
pub poisoned-IsRefused :
    (env : Env) (w : World) (e : Option AdbcError) (db : Pointer CDatabase) (db_request : DbCall)
    (cnxn : Pointer CConn) (conn_request : ConnCall) (stmt : Pointer CStmt)
    (stmt_request : StmtCall)
    → w.poisoned ≡ true
    → IsRefused db w (db_call env w e db db_request)
      × IsRefused cnxn w (conn_call env w e cnxn conn_request)
      × IsRefused stmt w (stmt_call env w e stmt stmt_request)
poisoned-IsRefused env w e db db_request cnxn conn_request stmt stmt_request h =
    subst
      (λ v.
        IsRefused db v (db_call env v e db db_request)
        × IsRefused cnxn v (conn_call env v e cnxn conn_request)
        × IsRefused stmt v (stmt_call env v e stmt stmt_request))
      (ap (λ b. record w { poisoned = b }) (sym h))
      (
        db-IsRefused env w e db db_request,
        conn-IsRefused env w e cnxn conn_request,
        stmt-IsRefused env w e stmt stmt_request,
      )
