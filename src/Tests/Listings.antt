-- ===== src/Tests/Listings.antt =====
-- Listings of the server of the tests, and of one that refuses everything.
use adbc_driver_spark.Base.{◌≡◌, refl, none, some, err, [], ◌∷◌, All}
use adbc_driver_spark.Base.Text.{codes}
use adbc_driver_spark.Adbc.{plain}
use adbc_driver_spark.Connect.Errors.{GrpcError}
use adbc_driver_spark.Connect.Reader.{new_result_reader}
use adbc_driver_spark.Spark.Like.{fold_loop, like_match}
use adbc_driver_spark.Connect.Client.{Service}
use adbc_driver_spark.Spark.Connection.{err_conn_closed, close_connection, get_table_schema}
use adbc_driver_spark.Spark.Database.{Connection}
use adbc_driver_spark.Spark.Statement.{new_statement}
use adbc_driver_spark.Spark.Objects.{Depth, SchemaRow, CatalogRow, build_objects}
use adbc_driver_spark.Spark.Objects.Monad.{then'}
use adbc_driver_spark.Spark.Objects.Rows.{build_objects-CatalogFits, CatalogFits}
use adbc_driver_spark.Spark.Objects.Success.{build_objects-Succeeds, Succeeds}
use adbc_driver_spark.Spark.Listing.{
  get_table_types, get_info, get_objects, close_connection-refuses,
}
use adbc_driver_spark.Tests.Data.{ascii_tables, server, client, local}

abbrev refusing_all : Service
refusing_all = record server { execute = λ _. err (GrpcError.status 12 (plain (codes "no"))) }

abbrev listed_schema : SchemaRow
listed_schema = record { name = codes "main"; tables = none }

-- A catalog by its name: the schemas of the server of the tests, without tables.
abbrev only_main : CatalogRow
only_main = record { name = codes "main"; schemas = some (listed_schema ∷ listed_schema ∷ []) }

build_objects-CatalogFits_example :
    All
      (CatalogFits ascii_tables Depth.db_schemas (some (codes "MA%")) none none [])
      (only_main ∷ [])
unfolding build_objects then' new_result_reader fold_loop like_match
build_objects-CatalogFits_example =
    build_objects-CatalogFits ascii_tables server local Depth.db_schemas (some (codes "main"))
      (some (codes "MA%")) none none [] client refl

build_objects-Succeeds_example :
    Succeeds
      (build_objects ascii_tables refusing_all local Depth.catalogs none none none none [] client)
    × Succeeds (
        build_objects ascii_tables refusing_all local Depth.db_schemas none none none none []
          client)
build_objects-Succeeds_example =
    build_objects-Succeeds ascii_tables refusing_all local none none none none [] client

abbrev open_session : Connection
open_session = record { cfg = 0; client = some client }

close_connection-refuses_example :
    let closed = (close_connection server local open_session).0 in
    (new_statement closed ≡ err err_conn_closed)
    × (get_table_types closed ≡ err err_conn_closed)
    × (get_info server local (codes "0.3.0") (codes "18") closed [] ≡ (closed, err err_conn_closed))
    × (get_table_schema server local closed none none (codes "t") ≡ (closed, err err_conn_closed))
    × (get_objects ascii_tables server local closed Depth.columns none none none none []
        ≡ some (closed, err err_conn_closed))
close_connection-refuses_example =
    close_connection-refuses ascii_tables server local (codes "0.3.0") (codes "18") open_session []
      Depth.columns none none none none (codes "t") []
