-- ===== src/Export/Closed/Runs.antt =====
-- Sequences of calls of the C interface leave closed connections closed.
use adbc_driver_spark.Base.{ℕ, Option, List, [], ◌∷◌}
use adbc_driver_spark.Export.Errors.{AdbcError}
use adbc_driver_spark.Export.World.{Env, World, CDatabase, CConn, CStmt, Pointer}
use adbc_driver_spark.Export.Databases.Phases.{DbCall, db_call}
use adbc_driver_spark.Export.Poisoned.{ConnCall, conn_call, StmtCall, stmt_call}
use adbc_driver_spark.Export.Closed.{ClosedAt, db_call-Stays}
use adbc_driver_spark.Export.Closed.Connections.{conn_call-Stays}
use adbc_driver_spark.Export.Closed.Statements.{stmt_call-Stays}

-- A call of any function of the C interface, on any struct.
pub data AnyCall : Type 0 where
  on_database : Pointer CDatabase → DbCall → AnyCall
  on_connection : Pointer CConn → ConnCall → AnyCall
  on_statement : Pointer CStmt → StmtCall → AnyCall

abbrev pub run_call : Env → World → Option AdbcError → AnyCall → World
run_call env w e (on_database p c) = (db_call env w e p c).world
run_call env w e (on_connection p c) = (conn_call env w e p c).world
run_call env w e (on_statement p c) = (stmt_call env w e p c).world

-- The driver after a sequence of calls, each with its error struct.
abbrev pub run_any_calls : Env → World → List (AnyCall × Option AdbcError) → World
run_any_calls env w [] = w
run_any_calls env w ((c, e) ∷ cs) = run_any_calls env (run_call env w e c) cs

run_call-ClosedAt :
    (a : ℕ) (env : Env) (w : World) (e : Option AdbcError) (c : AnyCall)
    → ClosedAt a w.connections
    → ClosedAt a (run_call env w e c).connections
run_call-ClosedAt a env w e (on_database p c) t = db_call-Stays a env w e t p c
run_call-ClosedAt a env w e (on_connection p c) t = conn_call-Stays a env e w p c t
run_call-ClosedAt a env w e (on_statement p c) t = stmt_call-Stays a env e w p c t

pub run_any_calls-ClosedAt :
    (a : ℕ) (env : Env) (w : World) (cs : List (AnyCall × Option AdbcError))
    → ClosedAt a w.connections
    → ClosedAt a (run_any_calls env w cs).connections
run_any_calls-ClosedAt a env w [] t = t
run_any_calls-ClosedAt a env w ((c, e) ∷ cs) t =
    run_any_calls-ClosedAt a env (run_call env w e c) cs (run_call-ClosedAt a env w e c t)
