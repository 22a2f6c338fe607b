-- ===== src/Tests/Streams.antt =====
-- Results, statements and the client against the server of the tests.
use adbc_driver_spark.Base.{◌≡◌, arith, refl, List, [], ◌∷◌, ◌++◌, if◌then◌else◌}
use adbc_driver_spark.Base.Text.{codes}
use adbc_driver_spark.Arrow.{Schema, Batch}
use adbc_driver_spark.Connect.Reader
use adbc_driver_spark.Connect.Reader.{new_result_reader, release, or_else, Stream, pred_ℤ}
use adbc_driver_spark.Connect.Reader.Account.Calls
use adbc_driver_spark.Connect.Reader.Account.{held}
use adbc_driver_spark.Connect.Reader.Account.Calls.{run_calls-balance, run_calls}
use adbc_driver_spark.Connect.Reader.Delivery.{contents}
use adbc_driver_spark.Connect.Reader.Delivery.Loops.{new_result_reader-Reads, Reads}
use adbc_driver_spark.Connect.Reader.SchemaCapture.{first_schema}
use adbc_driver_spark.Connect.Client.{execute, schema_of, error_or, schema_or_nil, dial}
use adbc_driver_spark.Connect.Config.{Config}
use adbc_driver_spark.Connect.Client.Calls.{
  run_requests-IsTidy, IsTidy, run_requests, Request, releases, asks_close,
}
use adbc_driver_spark.Connect.Client.Results.{execute-Yields, Yields, schema_of_lem}
use adbc_driver_spark.Tests.Data.{decode_names, two_messages, server, client, local}

new_result_reader-Reads_example :
    Reads decode_names 3
      (contents decode_names two_messages)
      (new_result_reader decode_names [] two_messages [])
new_result_reader-Reads_example =
    new_result_reader-Reads decode_names 3 [] two_messages [] (omega arith)

run_calls-balance_example :
    let r =
      run_calls decode_names
        (new_result_reader decode_names [] two_messages []).0
        (Calls.call_next ∷ Calls.call_retain ∷ Calls.call_release ∷ Calls.call_release ∷ []) in
    r.retained ≡ r.released ++ held r
run_calls-balance_example =
    run_calls-balance decode_names [] two_messages []
      (Calls.call_next ∷ Calls.call_retain ∷ Calls.call_release ∷ Calls.call_release ∷ [])

abbrev opened_reader : Reader.Reader Schema Batch
opened_reader = (new_result_reader decode_names [] two_messages []).0

execute-Yields_example :
    Yields decode_names
      (contents decode_names two_messages)
      (execute server local client (codes "SELECT 1") []).1
execute-Yields_example = execute-Yields server local client (codes "SELECT 1") [] refl

schema_of_lem_example :
    (schema_of server local client (codes "SELECT 1")).1
    ≡ error_or
        (contents decode_names two_messages).1
        (schema_or_nil (first_schema decode_names two_messages))
schema_of_lem_example = schema_of_lem server local client (codes "SELECT 1") refl

abbrev version_and_close : List (Config × Request)
version_and_close =
    (local, Request.do_version) ∷ (local, Request.do_close) ∷ (local, Request.do_close) ∷ []

run_requests-IsTidy_example :
    let c = run_requests server (dial local (codes "u")) version_and_close in
    IsTidy (dial local (codes "u")).session_id c
    × (releases c.calls ≡ (if asks_close version_and_close then 1 else 0))
run_requests-IsTidy_example = run_requests-IsTidy server local (codes "u") version_and_close
