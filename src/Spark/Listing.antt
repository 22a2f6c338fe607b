-- ===== src/Spark/Listing.antt =====
-- driver/spark/connection.go: `GetTableTypes`, `GetInfo` and `GetObjects`, which check that the
-- connection is open.
use adbc_driver_spark.Base.{ℕ, ◌≡◌, refl, Option, none, some, List, ok, err}
use adbc_driver_spark.Base.Text.{Text, Unicode}
use adbc_driver_spark.Adbc.{Go}
use adbc_driver_spark.Connect.Config.{Config}
use adbc_driver_spark.Connect.Client.{Service, Client}
use adbc_driver_spark.Spark.Database.{Connection}
use adbc_driver_spark.Spark.Connection.{
  err_conn_closed, close_client-client, close_connection, get_table_schema,
}
use adbc_driver_spark.Spark.Statement.{new_statement}
use adbc_driver_spark.Spark.Metadata.{build_table_types, build_info}
use adbc_driver_spark.Spark.Objects.{Depth, CatalogRow, build_objects}

unfoldable pub get_table_types : Connection → Go (List Text)
unfolding err_conn_closed build_table_types
get_table_types conn = elim conn.client [
  | none ↦ err err_conn_closed
  | some _ ↦ ok build_table_types
]

-- The connection with the client as a method leaves it.
abbrev pub with_client : Connection → Client → Connection
with_client conn c = record conn { client = some c }

abbrev pub info_result : {A : Type 0} → Connection → Client × A → Connection × Go A
info_result conn (c, rows) = (with_client conn c, ok rows)

unfoldable pub get_info :
    Service → Config → Text → Text → Connection → List ℕ → Connection × Go (List (ℕ × Text))
unfolding err_conn_closed build_info
get_info svc cfg version arrow_version conn codes' = elim conn.client [
  | none ↦ (conn, err err_conn_closed)
  | some c ↦ info_result conn (build_info svc cfg version arrow_version c codes')
]

abbrev pub objects_result :
    {A : Type 0} → Connection → Option (Client × Go A) → Option (Connection × Go A)
objects_result conn none = none
objects_result conn (some (c, rows)) = some (with_client conn c, rows)

unfoldable pub get_objects :
    Unicode
    → Service
    → Config
    → Connection
    → Depth
    → Option Text
    → Option Text
    → Option Text
    → Option Text
    → List Text
    → Option (Connection × Go (List CatalogRow))
unfolding err_conn_closed build_objects
get_objects u svc cfg conn depth catalog db_schema table_name column_name table_types =
    elim conn.client [
      | none ↦ some (conn, err err_conn_closed)
      | some c ↦
          objects_result conn
            (build_objects u svc cfg depth catalog db_schema table_name column_name table_types c)
    ]

-- After `Close`, each of NewStatement, GetTableTypes, GetInfo, GetTableSchema and GetObjects refuses
-- with the error of a closed connection, and leaves the connection as it is.
pub close_connection-refuses :
    (u : Unicode) (svc : Service) (cfg : Config) (version arrow_version : Text) (conn : Connection)
    (codes' : List ℕ) (depth : Depth) (catalog db_schema table_name column_name : Option Text)
    (table : Text) (table_types : List Text)
    → let closed = (close_connection svc cfg conn).0 in
      (new_statement closed ≡ err err_conn_closed)
      × (get_table_types closed ≡ err err_conn_closed)
      × (get_info svc cfg version arrow_version closed codes' ≡ (closed, err err_conn_closed))
      × (get_table_schema svc cfg closed catalog db_schema table ≡ (closed, err err_conn_closed))
      × (get_objects u svc cfg closed depth catalog db_schema table_name column_name table_types
          ≡ some (closed, err err_conn_closed))
unfolding close_connection new_statement get_table_types get_info get_table_schema get_objects
close_connection-refuses u svc cfg version arrow_version conn codes' depth catalog db_schema
      table_name column_name table table_types =
    let gone = close_client-client svc cfg conn conn.client refl in
    (
      rw (gone, new_statement) refl,
      rw (gone, get_table_types) refl,
      rw (gone, get_info) refl,
      rw (gone, get_table_schema) refl,
      rw (gone, get_objects) refl,
    )
