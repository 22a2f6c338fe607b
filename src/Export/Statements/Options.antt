-- ===== src/Export/Statements/Options.antt =====
-- c/driver.go: the functions of a statement whose methods Spark's statement does not have.
use adbc_driver_spark.Base.{Option}
use adbc_driver_spark.Base.Text.{Text, codes}
use adbc_driver_spark.Adbc.{Status}
use adbc_driver_spark.Export.Errors.{AdbcError}
use adbc_driver_spark.Export.World.{
  Env, World, CStmt, Pointer, Reply, complain, check_stmt_init, checked,
}

-- The answer to a call of a method that the statement does not have; `fname` is the name that the
-- function reports.
abbrev pub unsupported_method :
    Env → World → Option AdbcError → Pointer CStmt → Text → Text → Reply CStmt
unsupported_method env w e stmt fname why =
    checked stmt w (check_stmt_init env w e stmt fname)
      (λ _. complain env stmt w e why Status.not_implemented)

-- `SparkStatementGetOption`
unfoldable pub statement_get_option : Env → World → Option AdbcError → Pointer CStmt → Reply CStmt
unfolding check_stmt_init checked complain
statement_get_option env w e stmt =
    unsupported_method env w e stmt (codes "AdbcStatementGetOption")
      (codes "AdbcStatementGetOption: options are not supported")

-- `SparkStatementGetOptionBytes`
unfoldable pub statement_get_option_bytes :
    Env → World → Option AdbcError → Pointer CStmt → Reply CStmt
unfolding check_stmt_init checked complain
statement_get_option_bytes env w e stmt =
    unsupported_method env w e stmt (codes "AdbcStatementGetOptionBytes")
      (codes "AdbcStatementGetOptionBytes: options are not supported")

-- `SparkStatementGetOptionDouble`
unfoldable pub statement_get_option_double :
    Env → World → Option AdbcError → Pointer CStmt → Reply CStmt
unfolding check_stmt_init checked complain
statement_get_option_double env w e stmt =
    unsupported_method env w e stmt (codes "AdbcStatementGetOptionDouble")
      (codes "AdbcStatementGetOptionDouble: options are not supported")

-- `SparkStatementGetOptionInt`
unfoldable pub statement_get_option_int :
    Env → World → Option AdbcError → Pointer CStmt → Reply CStmt
unfolding check_stmt_init checked complain
statement_get_option_int env w e stmt =
    unsupported_method env w e stmt (codes "AdbcStatementGetOptionInt")
      (codes "AdbcStatementGetOptionInt: options are not supported")

-- `SparkStatementSetOptionBytes`
unfoldable pub statement_set_option_bytes :
    Env → World → Option AdbcError → Pointer CStmt → Reply CStmt
unfolding check_stmt_init checked complain
statement_set_option_bytes env w e stmt =
    unsupported_method env w e stmt (codes "AdbcStatementSetOptionBytes")
      (codes "AdbcStatementSetOptionBytes: options are not supported")

-- `SparkStatementSetOptionDouble`
unfoldable pub statement_set_option_double :
    Env → World → Option AdbcError → Pointer CStmt → Reply CStmt
unfolding check_stmt_init checked complain
statement_set_option_double env w e stmt =
    unsupported_method env w e stmt (codes "AdbcStatementSetOptionDouble")
      (codes "AdbcStatementSetOptionDouble: options are not supported")

-- `SparkStatementSetOptionInt`
unfoldable pub statement_set_option_int :
    Env → World → Option AdbcError → Pointer CStmt → Reply CStmt
unfolding check_stmt_init checked complain
statement_set_option_int env w e stmt =
    unsupported_method env w e stmt (codes "AdbcStatementSetOptionInt")
      (codes "AdbcStatementSetOptionInt: options are not supported")

-- `SparkStatementExecuteSchema`; its checks report the name of `SparkStatementExecuteQuery`.
unfoldable pub statement_execute_schema :
    Env → World → Option AdbcError → Pointer CStmt → Reply CStmt
unfolding check_stmt_init checked complain
statement_execute_schema env w e stmt =
    unsupported_method env w e stmt (codes "AdbcStatementExecuteQuery")
      (codes "AdbcStatementExecuteSchema: not supported")
