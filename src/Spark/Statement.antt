-- ===== src/Spark/Statement.antt =====
-- driver/spark/statement.go: `statement`, and `NewStatement` of connection.go. `retained` and
-- `released` are the record batches whose Retain and Release were called, in the order of the calls. A statement's pointer to
-- its connection is `attached`; the connection itself is passed along, as `Close` changes it for all
-- its statements.
pub mod Binding
pub mod Execution
use adbc_driver_spark.Base.{
  ℕ, zero, suc, ◌+◌, Bool, true, false, ◌||◌, Option, none, some, List, [], ◌∷◌, ◌++◌, Result, ok,
  err, ◌>>=◌, ltb, ◌==◌, if◌then◌else◌, is_nil,
}
use adbc_driver_spark.Base.Int.{ℤ}
use adbc_driver_spark.Base.Text.{Text, codes}
use adbc_driver_spark.Adbc.{Status, plain, format, GoError, Go, adbc_error}
use adbc_driver_spark.Connect.Config.{Config}
use adbc_driver_spark.Connect.Reader.{to_list}
use adbc_driver_spark.Connect.Client.{Service, Client, ResultReader, execute, read_all, error_or}
use adbc_driver_spark.Spark.Connection.{err_conn_closed}
use adbc_driver_spark.Spark.Database.{Connection}
use adbc_driver_spark.Spark.Params.{Column, Literal, column_to_literal}

-- A record batch of parameters.
pub record Params : Type 0 where
  pub num_rows : ℕ
  pub columns : List Column

pub record Statement : Type 0 where
  pub attached : Bool
  pub query : Text
  pub params : Option Params
  pub prepared : Bool
  pub retained : List Params
  pub released : List Params

abbrev pub fresh_statement : Statement
fresh_statement = record {
  attached = true;
  query = [];
  params = none;
  prepared = false;
  retained = [];
  released = [];
}

unfoldable pub new_statement : Connection → Go Statement
unfolding err_conn_closed
new_statement conn = elim conn.client [ none ↦ err err_conn_closed | some _ ↦ ok fresh_statement ]

unfoldable pub err_closed : GoError
err_closed = adbc_error (plain (codes "spark: statement is closed")) Status.invalid_state

unfoldable pub err_no_query : GoError
err_no_query = adbc_error (plain (codes "spark: no query has been set")) Status.invalid_state

unfoldable pub close_statement : Statement → Statement
close_statement s = record s {
  released = s.released ++ to_list s.params;
  params = none;
  attached = false;
}

unfoldable pub set_option : Statement → Text → Statement × Option GoError
set_option s key = (
  s,
  some (
      adbc_error (format (codes "spark: unknown statement option: ") (key ∷ []))
        Status.not_implemented),
)

unfoldable pub set_sql_query : Statement → Text → Statement × Option GoError
set_sql_query s query = (record s { query = query }, none)

unfoldable pub prepare : Statement → Statement × Option GoError
unfolding err_no_query
prepare s = if is_nil s.query then (s, some err_no_query) else (record s { prepared = true }, none)

abbrev pub too_many_rows : Option Params → Bool
too_many_rows none = false
too_many_rows (some p) = ltb 1 p.num_rows

unfoldable pub bind : Statement → Option Params → Statement × Option GoError
bind s values =
    if too_many_rows values
    then (
      s,
      some (
          adbc_error
            (plain (
              codes
                "spark: parameter binding supports a single row; bulk binding is not implemented"))
            Status.not_implemented),
    )
    else (
      record s {
        released = s.released ++ to_list s.params;
        retained = s.retained ++ to_list values;
        params = values;
      },
      none,
    )

abbrev pub append_literal : Literal → Option (Go (List Literal)) → Option (Go (List Literal))
append_literal lit none = none
append_literal lit (some (err e)) = some (err e)
append_literal lit (some (ok lits)) = some (ok (lit ∷ lits))

-- The loop of `positionalLiterals` over the columns; `none` is a panic of `columnToLiteral`.
unfoldable pub literals_of : (ℤ → ℤ → Text) → List Column → Option (Go (List Literal))
unfolding column_to_literal
literals_of decimal_text [] = some (ok [])
literals_of decimal_text (col ∷ cols) = elim (column_to_literal decimal_text col 0) [
  | none ↦ none
  | some (err e) ↦ some (err e)
  | some (ok lit) ↦ append_literal lit (literals_of decimal_text cols)
]

unfoldable pub positional_literals : (ℤ → ℤ → Text) → Option Params → Option (Go (List Literal))
unfolding literals_of
positional_literals decimal_text none = some (ok [])
positional_literals decimal_text (some p) =
    if p.num_rows == 0 then some (ok []) else literals_of decimal_text p.columns

-- The reader of `ExecuteSQL`, and the connection with its client as it is left.
abbrev pub ran : Connection → Client × Go ResultReader → Connection × Go ResultReader
ran conn (c, r) = (record conn { client = some c }, r)

abbrev pub run_with :
    Service
    → Config
    → Connection
    → Client
    → Text
    → Option (Go (List Literal))
    → Option (Connection × Go ResultReader)
run_with svc cfg conn c query none = none
run_with svc cfg conn c query (some (err e)) = some (conn, err e)
run_with svc cfg conn c query (some (ok args)) = some (ran conn (execute svc cfg c query args))

-- `ExecuteQuery` with the connection's client.
unfoldable pub query_client :
    (ℤ → ℤ → Text)
    → Service
    → Config
    → Connection
    → Statement
    → Option Client
    → Option (Connection × Go ResultReader)
unfolding err_closed err_no_query positional_literals execute
query_client decimal_text svc cfg conn s none = some (conn, err err_closed)
query_client decimal_text svc cfg conn s (some c) =
    if is_nil s.query
    then some (conn, err err_no_query)
    else run_with svc cfg conn c s.query (positional_literals decimal_text s.params)

-- `ExecuteQuery`; the row count is always -1. `none` is a panic.
unfoldable pub execute_query :
    (ℤ → ℤ → Text)
    → Service
    → Config
    → Connection
    → Statement
    → Option (Connection × Go ResultReader)
unfolding query_client
execute_query decimal_text svc cfg conn s =
    if s.attached
    then query_client decimal_text svc cfg conn s conn.client
    else some (conn, err err_closed)

-- The session that the reader has remembered in the client.
abbrev pub remembered : Connection → ResultReader → Connection
remembered conn r = elim conn.client [
  | none ↦ conn
  | some c ↦ record conn { client = some (record c { server_session_id = r.server_session }) }
]

abbrev pub discard :
    Service → Option (Connection × Go ResultReader) → Option (Connection × Option GoError)
discard svc none = none
discard svc (some (conn, err e)) = some (conn, some e)
discard svc (some (conn, ok r)) =
    let last = (read_all svc.decode r).1 in some (remembered conn last, last.error)

-- `ExecuteUpdate`
unfoldable pub execute_update :
    (ℤ → ℤ → Text)
    → Service
    → Config
    → Connection
    → Statement
    → Option (Connection × Option GoError)
unfolding execute_query read_all
execute_update decimal_text svc cfg conn s = discard svc (execute_query decimal_text svc cfg conn s)

-- The operations that are not supported.
unfoldable pub set_substrait_plan : GoError
set_substrait_plan =
    adbc_error (plain (codes "spark: Substrait plans are not supported; use SetSqlQuery"))
      Status.not_implemented

unfoldable pub bind_stream : GoError
bind_stream =
    adbc_error (plain (codes "spark: streamed parameter binding is not supported"))
      Status.not_implemented

unfoldable pub get_parameter_schema : GoError
get_parameter_schema =
    adbc_error (plain (codes "spark: parameter schema introspection is not supported"))
      Status.not_implemented

unfoldable pub execute_partitions : GoError
execute_partitions =
    adbc_error (plain (codes "spark: partitioned execution is not supported"))
      Status.not_implemented
