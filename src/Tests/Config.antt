-- ===== src/Tests/Config.antt =====
-- Connection strings and options.
use adbc_driver_spark.Base.{arith, ◌≡◌, refl, false, ok, [], ◌∷◌}
use adbc_driver_spark.Base.Int.{pos}
use adbc_driver_spark.Base.Text.{codes, to_lower, lower_ascii, is_space}
use adbc_driver_spark.Connect.Config.{
  parse_connection_string, initial, scheme_tls, set_endpoint, endpoint,
}
use adbc_driver_spark.Connect.Config.Parse.{
  parse_connection_string-connection_text, connection_text, apply_all,
}
use adbc_driver_spark.Connect.Config.Host.{set_endpoint-endpoint}
use adbc_driver_spark.Tests.Data.{ascii_tables, letters, local}

parse_all :
    parse_connection_string ascii_tables (codes "SC://h:99/; Token=a+b%2F;x=1")
    ≡ ok (record initial {
      host = codes "h";
      port = pos 99;
      token = codes "a+b/";
      headers = (codes "x", codes "1") ∷ [];
    })
unfolding parse_connection_string
parse_all = refl

parse_connection_string-connection_text_example :
    parse_connection_string ascii_tables
      (connection_text (codes "sc") local letters ((codes "token", codes "a+b;") ∷ []))
    ≡ apply_all
        (record initial { use_tls = false; host = codes "::1"; port = local.port })
        ((codes "token", codes "a+b;") ∷ [])
unfolding scheme_tls to_lower lower_ascii is_space
parse_connection_string-connection_text_example =
    parse_connection_string-connection_text ascii_tables letters (codes "sc") false local
      ((codes "token", codes "a+b;") ∷ []) (ground arith) refl (refl, refl) (ground arith)
      (ground arith) (omega arith)

set_endpoint-endpoint_example :
    set_endpoint initial (endpoint local)
    ≡ ok (record initial { host = local.host; port = local.port })
set_endpoint-endpoint_example = set_endpoint-endpoint local initial (omega arith) (omega arith)
