-- ===== src/Tests/Exports.antt =====
-- The C interface against the server of the tests.
use adbc_driver_spark.Base.{
  List, ◌-◌, ℕ, suc, true, false, ◌≡◌, arith, refl, Option, none, some, [], ◌∷◌, ◌++◌, ok, length,
  get_elem?, ◌+◌, leb, drop, if◌then◌else◌,
}
use adbc_driver_spark.Base.Int.{pos, negsuc}
use adbc_driver_spark.Base.Text.{codes}
use adbc_driver_spark.Adbc.{Status, plain, GoError, adbc_error}
use adbc_driver_spark.Arrow.{Schema, Batch}
use adbc_driver_spark.Connect.Reader.{new_result_reader}
use adbc_driver_spark.Connect.Reader.Delivery.{pending, contents}
use adbc_driver_spark.Connect.Client.{dial}
use adbc_driver_spark.Spark.Database.{Database, Connection, open_connection}
use adbc_driver_spark.Spark.Statement.{Statement, fresh_statement, positional_literals}
use adbc_driver_spark.Export.Errors.{
  Printer, FullError, AdbcError, set_err_with_details, err_to_adbc_err, error_get_detail_count,
  error_get_detail,
}
use adbc_driver_spark.Export.Errors.Reports.{status_of, Outcome, err_to_adbc_err-Outcome}
use adbc_driver_spark.Export.Errors.Details.{set_err_with_details-get_detail, ReadsAs}
use adbc_driver_spark.Export.Options.{export_string_option}
use adbc_driver_spark.Export.Options.Buffers.{export_string_option-Fills}
use adbc_driver_spark.Export.Table.{driver_init, version_of}
use adbc_driver_spark.Export.Table.Wiring.{Fits, driver_init-Fits}
use adbc_driver_spark.Export.Streams.{CArrayStream, ArrayStream, zeroed_error}
use adbc_driver_spark.Export.Streams.Delivery.{pull, live, errno_after, TellsEnd, pull-pending}
use adbc_driver_spark.Export.Streams.Life.{EndsThrough, at_end_of_life, hand_over-EndsThrough}
use adbc_driver_spark.Export.Streams.Life
use adbc_driver_spark.Export.World.{
  Env, GoConnection, World, CDatabase, CConn, CStmt, Pointer, also,
}
use adbc_driver_spark.Export.Databases.Phases.{Follows, db_call, db_call-Follows}
use adbc_driver_spark.Export.Databases.Phases
use adbc_driver_spark.Export.Connections.{connection_init, connection_release}
use adbc_driver_spark.Export.Statements.{
  statement_new, statement_set_sql_query, statement_cancel, statement_execute_query,
}
use adbc_driver_spark.Export.Statements.Queries.{Delivers, statement_execute_query-Delivers}
use adbc_driver_spark.Export.Poisoned.{
  IsRefused, conn_call, stmt_call, poisoned-IsRefused, StmtCall,
}
use adbc_driver_spark.Export.Poisoned
use adbc_driver_spark.Export.Contexts.{context_of, contexts_from}
use adbc_driver_spark.Export.Contexts.Runs.{run_stmt_calls, run_stmt_calls-cancelled}
use adbc_driver_spark.Export.Closed.Runs.{AnyCall, run_any_calls}
use adbc_driver_spark.Export.Closed.Runs
use adbc_driver_spark.Export.Closing.{Refuses, connection_release-closes}
use adbc_driver_spark.Export.Opening.{IsOpen, connection_init-IsOpen}
use adbc_driver_spark.Tests.Data.{
  ascii_tables, decode_names, two_messages, server, client, local, print_none,
}

-- It prints a format as it is, and every message as nothing.
abbrev silent : Printer
silent = record { sprintf = λ f vals. f; render = λ m. [] }

abbrev not_found_error : GoError
not_found_error = adbc_error (plain (codes "no")) Status.not_found

err_to_adbc_err-Outcome_example :
    let (e', status) = err_to_adbc_err silent (some zeroed_error) (some not_found_error) in
    (status ≡ status_of not_found_error) × Outcome silent (pos 0) not_found_error e'
err_to_adbc_err-Outcome_example =
    err_to_adbc_err-Outcome silent zeroed_error not_found_error (λ t h. refl) tt

abbrev asking : AdbcError
asking = record zeroed_error { vendor_code = negsuc 2147483647 }

abbrev one_detail : FullError
one_detail = record {
  msg = codes "no";
  code = Status.io;
  vendor_code = pos 0;
  sqlstate = codes "00000";
  details = record { key = codes "k"; serialized = ok (codes "v") } ∷ [];
}

set_err_with_details-get_detail_example :
    let e' = set_err_with_details silent (some asking) one_detail in
    (error_get_detail_count e' ≡ length one_detail.details)
    × ((i : ℕ) → ReadsAs (get_elem? one_detail.details i) (error_get_detail e' (pos i)))
    × ((i : ℕ) → error_get_detail e' (negsuc i) ≡ none)
set_err_with_details-get_detail_example =
    set_err_with_details-get_detail silent asking one_detail refl refl

export_string_option-Fills_example :
    let val = codes "ab" in
    let mem = codes "wxyz" in
    let fits = leb (suc (length val)) 3 in
    (export_string_option val (some mem) 3
      ≡ some (some (if fits then val ++ 0 ∷ drop (suc (length val)) mem else mem), length val + 1))
    × (export_string_option val none 3 ≡ (if fits then none else some (none, length val + 1)))
export_string_option-Fills_example =
    export_string_option-Fills (codes "ab") (codes "wxyz") 3 (omega arith)

driver_init-Fits_example :
    Fits (version_of (pos 1001000)) (driver_init silent (pos 1001000) (some zeroed_error))
driver_init-Fits_example = driver_init-Fits silent (pos 1001000) (some zeroed_error)

abbrev exported_stream : CArrayStream Schema Batch
exported_stream = record {
  rdr = (new_result_reader decode_names [] two_messages []).0;
  adbc_err = none;
  status = Status.ok;
}

pull-pending_example :
    let (recs, end) = pending decode_names exported_stream.rdr in
    (s : Option (ArrayStream Schema Batch)) × (pull silent decode_names 3 (live exported_stream)
      ≡ some (recs, errno_after end, s))
    × TellsEnd silent decode_names end s
unfolding new_result_reader
pull-pending_example =
    pull-pending silent decode_names 3 exported_stream (omega arith) (λ t h. refl) (λ g h. tt)

hand_over-EndsThrough_example : EndsThrough silent decode_names (
    at_end_of_life silent decode_names
      (Life.call_get_schema ∷ Life.call_get_next ∷ [])
      (new_result_reader decode_names [] two_messages []))
hand_over-EndsThrough_example =
    hand_over-EndsThrough silent decode_names [] two_messages []
      (Life.call_get_schema ∷ Life.call_get_next ∷ [])

abbrev test_env : Env
test_env = record {
  printer = silent;
  unicode = ascii_tables;
  service = server;
  visit = λ m. m;
  dial_error = λ _. none;
  uuid = λ _. codes "u";
  decimal_text = print_none;
  version = codes "1";
  arrow_version = codes "18";
  panic_value = [];
}

abbrev go_connection : GoConnection
go_connection = record { conn = record { cfg = 0; client = some client }; config = local }

abbrev one_connection : World
one_connection = record {
  poisoned = false;
  connections = go_connection ∷ [];
  contexts = 0;
  cancelled = [];
  closed = [];
}

db_call-Follows_example :
    Follows test_env one_connection Phases.absent Phases.call_new
      (db_call test_env one_connection none (some none) Phases.call_new)
db_call-Follows_example =
    db_call-Follows test_env one_connection none Phases.call_new refl Phases.nothing

abbrev select_one : Statement
select_one = record fresh_statement { query = codes "SELECT 1" }

statement_execute_query-Delivers_example :
    let st : Pointer CStmt = some (some (record { context = none; stmt = some (select_one, 0) })) in
    let r = statement_execute_query test_env one_connection none st true true in
    Delivers test_env (contents decode_names two_messages) r.code r.output
unfolding positional_literals
statement_execute_query-Delivers_example =
    statement_execute_query-Delivers test_env (λ t h. refl) one_connection none none select_one 0
      go_connection client [] true refl refl refl refl refl refl refl (λ g h. tt)

abbrev after_panic : World
after_panic = record one_connection { poisoned = true }

poisoned-IsRefused_example :
    IsRefused
      (some none)
      after_panic
      (db_call test_env after_panic none (some none) Phases.call_new)
    × IsRefused
        (some none)
        after_panic
        (conn_call test_env after_panic none (some none) Poisoned.conn_new)
    × IsRefused
        (some none)
        after_panic
        (stmt_call test_env after_panic none (some none) Poisoned.stmt_prepare)
poisoned-IsRefused_example =
    poisoned-IsRefused test_env after_panic none (some none) Phases.call_new (some none)
      Poisoned.conn_new (some none) Poisoned.stmt_prepare refl

-- Calls on structs that still lead to the connection.
abbrev use_after_release : List (AnyCall × Option AdbcError)
use_after_release =
    (
      Runs.on_connection (some (some (record { context = none; cnxn = some 0; init_args = [] })))
          (Poisoned.conn_get_table_types true),
      none,
    )
    ∷ (
      Runs.on_statement (some (some (record { context = none; stmt = some (select_one, 0) })))
          Poisoned.stmt_prepare,
      none,
    )
    ∷ []

connection_release-closes_example :
    let cnxn : Pointer CConn =
      some (some (record { context = some 0; cnxn = some 0; init_args = [] })) in
    let stmt : Pointer CStmt =
      some (some (record { context = none; stmt = some (select_one, 0) })) in
    let r = connection_release test_env one_connection none cnxn in
    let w' = run_any_calls test_env r.world use_after_release in
    (r.struct ≡ some none) × Refuses (statement_execute_query test_env w' none stmt true false)
connection_release-closes_example =
    connection_release-closes test_env one_connection none none (some 0) none 0 [] go_connection
      select_one true false use_after_release refl refl

abbrev local_database : Database
local_database = record { store = local ∷ []; cfg = some 0 }

abbrev local_connection : Connection
local_connection = record { cfg = 0; client = some (dial local (codes "u")) }

connection_init-IsOpen_example :
    let cnxn : Pointer CConn =
      some
        (some (record { context = none; cnxn = none; init_args = (codes "k", codes "v") ∷ [] })) in
    let db : Pointer CDatabase = some (some (record { opts = []; db = some local_database })) in
    IsOpen one_connection
      (record { conn = local_connection; config = local })
      ((codes "k", codes "v") ∷ [])
      (connection_init test_env one_connection none cnxn db)
unfolding open_connection
connection_init-IsOpen_example =
    connection_init-IsOpen test_env one_connection none ((codes "k", codes "v") ∷ []) []
      local_database local_connection local refl refl refl

abbrev two_runs : List (StmtCall × Option AdbcError)
two_runs =
    (
      Poisoned.stmt_new (some (some (record { context = none; cnxn = some 0; init_args = [] }))),
      none,
    )
    ∷ (Poisoned.stmt_set_sql_query (codes "SELECT 1"), none)
    ∷ (Poisoned.stmt_execute_query true false, none)
    ∷ (Poisoned.stmt_execute_query true false, none)
    ∷ (Poisoned.stmt_cancel, none)
    ∷ []

run_stmt_calls-cancelled_example :
    let (w, p) = run_stmt_calls test_env one_connection (some none) two_runs in
    also (context_of p) w.cancelled
    ≡ contexts_from one_connection.contexts (w.contexts - one_connection.contexts)
      ++ one_connection.cancelled
run_stmt_calls-cancelled_example = run_stmt_calls-cancelled test_env one_connection two_runs

-- Both executions have made a context, and both are cancelled.
two_runs_cancelled :
    (run_stmt_calls test_env one_connection (some none) two_runs).0.cancelled ≡ 1 ∷ 0 ∷ []
unfolding statement_new statement_set_sql_query statement_execute_query statement_cancel
    new_result_reader
two_runs_cancelled = refl
