-- ===== src/Spark/Connection.antt =====
-- driver/spark/connection.go: the methods of `connection` that reach the client. `cfg` is the content
-- of the configuration that the connection's client points to.
use adbc_driver_spark.Base.{◌≡◌, refl, Option, none, some, ◌++◌, err}
use adbc_driver_spark.Base.Text.{Text, codes}
use adbc_driver_spark.Adbc.{Status, plain, GoError, Go, adbc_error, text_of}
use adbc_driver_spark.Arrow.{Schema}
use adbc_driver_spark.Connect.Config.{Config}
use adbc_driver_spark.Connect.Client.{Service, Client, close, schema_of}
use adbc_driver_spark.Spark.Database.{Connection}
use adbc_driver_spark.Spark.Quote.{quote_qualified_name}

unfoldable pub err_conn_closed : GoError
err_conn_closed = adbc_error (plain (codes "spark: connection is closed")) Status.invalid_state

abbrev pub close_error : Option GoError → Option GoError
close_error none = none
close_error (some e) = some (adbc_error (text_of e) Status.io)

-- The connection, the client as it is left (the source drops it), and the error.
abbrev pub close_client :
    Service → Config → Connection → Option Client → Connection × Option Client × Option GoError
close_client svc cfg conn none = (conn, none, none)
close_client svc cfg conn (some c) =
    let (c', e) = close svc cfg c in (record conn { client = none }, some c', close_error e)

pub close_client-client :
    (svc : Service) (cfg : Config) (conn : Connection) (o : Option Client)
    → conn.client ≡ o
    → (close_client svc cfg conn o).0.client ≡ none
close_client-client svc cfg conn none e = e
close_client-client svc cfg conn (some c) e = refl

-- `Close`
unfoldable pub close_connection :
    Service → Config → Connection → Connection × Option Client × Option GoError
unfolding close
close_connection svc cfg conn = close_client svc cfg conn conn.client

-- `Commit` and `Rollback`
unfoldable pub commit : Option GoError
commit = some (
    adbc_error
      (plain
        (codes "spark: transactions are not supported; the driver operates in autocommit mode"))
      Status.not_implemented)

unfoldable pub rollback : Option GoError
rollback = some (
    adbc_error
      (plain
        (codes "spark: transactions are not supported; the driver operates in autocommit mode"))
      Status.not_implemented)

unfoldable pub read_partition : Option GoError
read_partition = some (
    adbc_error (plain (codes "spark: partitioned result reads are not supported"))
      Status.not_implemented)

-- The query of `GetTableSchema`.
unfoldable pub table_query : Option Text → Option Text → Text → Text
unfolding quote_qualified_name
table_query catalog db_schema table =
    codes "SELECT * FROM " ++ quote_qualified_name catalog db_schema table

-- `GetTableSchema` on a client that is there.
unfoldable pub table_schema :
    Service → Config → Client → Option Text → Option Text → Text → Client × Go Schema
unfolding table_query schema_of
table_schema svc cfg c catalog db_schema table =
    schema_of svc cfg c (table_query catalog db_schema table)

unfoldable pub get_table_schema :
    Service → Config → Connection → Option Text → Option Text → Text → Connection × Go Schema
unfolding table_schema err_conn_closed
get_table_schema svc cfg conn catalog db_schema table = elim conn.client [
  | none ↦ (conn, err err_conn_closed)
  | some c ↦
      let (c', s) = table_schema svc cfg c catalog db_schema table in
      (record conn { client = some c' }, s)
]
