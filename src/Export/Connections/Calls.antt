-- ===== src/Export/Connections/Calls.antt =====
-- c/driver.go: the functions of a connection that call a method of Spark's connection.
use adbc_driver_spark.Base.{ℕ, Bool, true, Option, none, some, List, ok, err}
use adbc_driver_spark.Base.Text.{Text, codes}
use adbc_driver_spark.Adbc.{GoError, Go}
use adbc_driver_spark.Spark.Database.{Connection}
use adbc_driver_spark.Spark.Connection.{commit, rollback, read_partition, get_table_schema}
use adbc_driver_spark.Spark.Listing.{get_table_types, get_info, get_objects}
use adbc_driver_spark.Spark.Objects.{Depth}
use adbc_driver_spark.Export.Errors.{AdbcError}
use adbc_driver_spark.Export.World.{
  Env, World, CConn, Pointer, Output, no_output, info_stream, objects_stream, names_stream,
  schema_output, Reply,
}
use adbc_driver_spark.Export.Connections.{connection_call}

abbrev pub output_of : {A : Type 0} → (A → Output) → Go A → Go Output
output_of f (err g) = err g
output_of f (ok a) = ok (f a)

abbrev pub with_output :
    {A : Type 0} → (A → Output) → Connection × Go A → Option (Connection × Go Output)
with_output f (c, r) = some (c, output_of f r)

abbrev pub maybe_output :
    {A : Type 0} → (A → Output) → Option (Connection × Go A) → Option (Connection × Go Output)
maybe_output f none = none
maybe_output f (some (c, r)) = some (c, output_of f r)

-- `SparkConnectionGetInfo`
unfoldable pub connection_get_info :
    Env → World → Option AdbcError → Pointer CConn → List ℕ → Bool → Reply CConn
unfolding connection_call get_info
connection_get_info env w e cnxn info_codes out =
    connection_call env w e cnxn (codes "AdbcConnectionGetInfo") out (λ cfg c.
      with_output info_stream (get_info env.service cfg env.version env.arrow_version c info_codes))

-- `SparkConnectionGetObjects`
unfoldable pub connection_get_objects :
    Env
    → World
    → Option AdbcError
    → Pointer CConn
    → Depth
    → Option Text
    → Option Text
    → Option Text
    → List Text
    → Option Text
    → Bool
    → Reply CConn
unfolding connection_call get_objects
connection_get_objects env w e cnxn depth catalog db_schema table_name table_type column_name out =
    connection_call env w e cnxn (codes "AdbcConnectionGetObjects") out (λ cfg c.
      maybe_output objects_stream (
        get_objects env.unicode env.service cfg c depth catalog db_schema table_name column_name
          table_type))

-- `SparkConnectionGetTableSchema`; a null `table_name` is the empty text.
unfoldable pub connection_get_table_schema :
    Env
    → World
    → Option AdbcError
    → Pointer CConn
    → Option Text
    → Option Text
    → Text
    → Bool
    → Reply CConn
unfolding connection_call get_table_schema
connection_get_table_schema env w e cnxn catalog db_schema table_name out =
    connection_call env w e cnxn (codes "AdbcConnectionGetTableSchema") out (λ cfg c.
      with_output schema_output (get_table_schema env.service cfg c catalog db_schema table_name))

-- `SparkConnectionGetTableTypes`
unfoldable pub connection_get_table_types :
    Env → World → Option AdbcError → Pointer CConn → Bool → Reply CConn
unfolding connection_call get_table_types
connection_get_table_types env w e cnxn out =
    connection_call env w e cnxn (codes "AdbcConnectionGetTableTypes") out
      (λ cfg c. some (c, output_of names_stream (get_table_types c)))

-- A method that returns an error or nothing.
abbrev pub error_result : Option GoError → Go Output
error_result none = ok no_output
error_result (some g) = err g

-- `SparkConnectionReadPartition`
unfoldable pub connection_read_partition :
    Env → World → Option AdbcError → Pointer CConn → Bool → Reply CConn
unfolding connection_call read_partition
connection_read_partition env w e cnxn out =
    connection_call env w e cnxn (codes "AdbcConnectionReadPartition") out
      (λ cfg c. some (c, error_result read_partition))

-- `SparkConnectionCommit`
unfoldable pub connection_commit : Env → World → Option AdbcError → Pointer CConn → Reply CConn
unfolding connection_call commit
connection_commit env w e cnxn =
    connection_call env w e cnxn (codes "AdbcConnectionCommit") true
      (λ cfg c. some (c, error_result commit))

-- `SparkConnectionRollback`
unfoldable pub connection_rollback : Env → World → Option AdbcError → Pointer CConn → Reply CConn
unfolding connection_call rollback
connection_rollback env w e cnxn =
    connection_call env w e cnxn (codes "AdbcConnectionRollback") true
      (λ cfg c. some (c, error_result rollback))
