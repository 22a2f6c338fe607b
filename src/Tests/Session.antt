-- ===== src/Tests/Session.antt =====
-- Databases, connections, statements and their metadata.
use adbc_driver_spark.Base.{
  ◌≡◌, ◌≢◌, ◌⊎◌, ◌↔◌, refl, true, false, none, some, err, [], ◌∷◌, ◌++◌, get_elem?, if◌then◌else◌,
}
use adbc_driver_spark.Base.Text.{codes, text_eq, has_prefix}
use adbc_driver_spark.Adbc.{Status, format, adbc_error}
use adbc_driver_spark.Connect.Config.{lookup, parse_bool}
use adbc_driver_spark.Connect.Client.{server_spark_version}
use adbc_driver_spark.Connect.Reader.Delivery.{contents}
use adbc_driver_spark.Spark.Connection.{close_connection}
use adbc_driver_spark.Spark.Database.{
  Database, Connection, apply_option, apply_options, uri_of, set_options, option_key_token,
  option_key_header_prefix,
}
use adbc_driver_spark.Spark.Database.Options.{
  apply_option_header, apply_option-Fails, headers_of, Fails, is_plain, is_tls, header_name,
}
use adbc_driver_spark.Spark.Database.Atomicity.{set_options_uri, set_options_in_place, Keeps}
use adbc_driver_spark.Spark.Statement.{
  Statement, fresh_statement, execute_query, execute_update, close_statement, err_closed,
  positional_literals,
}
use adbc_driver_spark.Spark.Statement.Execution.{
  execute_query_closed, execute_update_lem, update_error,
}
use adbc_driver_spark.Spark.Metadata.{build_info}
use adbc_driver_spark.Spark.Metadata.Info.{build_info-rows, is_given, rows_for, info_text}
use adbc_driver_spark.Tests.Data.{
  ascii_tables, server, client, local, two_messages, decode_names, print_none,
}

apply_option_header_example :
    lookup
      (codes "x-a")
      (headers_of (apply_option local (option_key_header_prefix ++ codes "x-a") (codes "1")))
    ≡ (if text_eq (codes "x-a") (codes "x-a")
        then some (codes "1")
        else lookup (codes "x-a") local.headers)
apply_option_header_example = apply_option_header local b'x' (codes "-a") (codes "1") (codes "x-a")

apply_option-Fails_example : Fails (apply_option local (codes "adbc.spark.tokn") (codes "t")) ↔ (
    (is_plain (codes "adbc.spark.tokn") ≡ false)
    × (((is_tls (codes "adbc.spark.tokn") ≡ true) × (parse_bool (codes "t") ≡ none))
        ⊎ ((is_tls (codes "adbc.spark.tokn") ≡ false)
            × (has_prefix (codes "adbc.spark.") (codes "adbc.spark.tokn") ≡ true)
            × (header_name (codes "adbc.spark.tokn") ≡ none))))
apply_option-Fails_example = apply_option-Fails local (codes "adbc.spark.tokn") (codes "t")

abbrev configured : Database
configured = record { store = local ∷ []; cfg = some 0 }

set_options_uri_example :
    Keeps configured (set_options ascii_tables configured ((codes "uri", codes "ftp://h") ∷ [])).0
    × ((set_options ascii_tables configured ((codes "uri", codes "ftp://h") ∷ [])).1 ≢ none
        → (set_options ascii_tables configured ((codes "uri", codes "ftp://h") ∷ [])).0.cfg
          ≡ configured.cfg)
unfolding uri_of text_eq
set_options_uri_example =
    set_options_uri ascii_tables configured ((codes "uri", codes "ftp://h") ∷ []) refl

set_options_in_place_example :
    ((set_options ascii_tables configured
        ((option_key_token, codes "t") ∷ (codes "adbc.spark.x", []) ∷ [])).1
      ≡ some (
          adbc_error
            (format (codes "spark: unknown option ") (codes "adbc.spark.x" ∷ []))
            Status.not_implemented))
    × (get_elem?
          (set_options ascii_tables configured
            ((option_key_token, codes "t") ∷ (codes "adbc.spark.x", []) ∷ [])).0.store
          0
        ≡ some (record local { token = codes "t" }))
unfolding uri_of apply_options
set_options_in_place_example =
    set_options_in_place ascii_tables configured ((option_key_token, codes "t") ∷ []) 0
      (codes "adbc.spark.x") [] refl refl refl refl refl

abbrev session : Connection
session = record { cfg = 0; client = some client }

abbrev ready : Statement
ready = record fresh_statement { query = codes "SELECT 1" }

execute_query_closed_example :
    let closed = (close_connection server local session).0 in
    (execute_query print_none server local closed ready ≡ some (closed, err err_closed))
    × (execute_query print_none server local session (close_statement ready)
        ≡ some (session, err err_closed))
execute_query_closed_example = execute_query_closed print_none server local session ready

execute_update_lem_example :
    update_error (execute_update print_none server local session ready)
    ≡ some (contents decode_names two_messages).1
unfolding positional_literals
execute_update_lem_example =
    execute_update_lem print_none server local session ready client [] refl refl refl refl refl

build_info-rows_example :
    let (c', v) = server_spark_version server local client in
    build_info server local (codes "0.3.0") (codes "18") client (1 ∷ 7 ∷ []) ≡ (
      if is_given 1 (1 ∷ 7 ∷ []) then c' else client,
      rows_for (info_text (codes "0.3.0") (codes "18") v) (1 ∷ 7 ∷ []),
    )
build_info-rows_example =
    build_info-rows server local (codes "0.3.0") (codes "18") client 1 (7 ∷ [])
