-- ===== src/Lib.antt =====
-- A model of the ADBC driver for Apache Spark over Spark Connect, with the theorems on it.
--
-- The program. `driver/spark` implements the ADBC interfaces: a database holds a configuration
-- (database.go), opens connections (connection.go), and these make statements (statement.go) and list
-- metadata (metadata.go, objects.go). `internal/sparkconnect` is the protocol client below it: the
-- configuration and its connection string (config.go), the client and its requests (client.go), the
-- reader of a result stream (result_reader.go) and the errors (errors.go). A statement converts its
-- bound row to literals (params.go), sends the query through the client, and hands out the reader.
-- `c/driver.go` and `c/utils.c` make a shared library of it: functions of C on handles of databases,
-- connections and statements, with results as Arrow streams and errors in structs of the caller.
--
-- The files, each for the Go file or part of it that its first comment names:
--   Base                lists, results, texts (lists of bytes or of runes), integers with wrap-around
--   Adbc, Arrow         adbc.Error and its status; what the driver reads of Arrow results
--   Connect/Errors      errors.go: wrapGRPC, grpcToADBC
--   Connect/Config      config.go: ParseConnectionString (`parse_connection_string`) and its parts
--   Connect/Reader      result_reader.go: `fill`, `decode_ipc`, `next`, `retain`, `release`
--   Connect/Client      client.go: `dial`, `execute`, `schema_of`, SetConf and GetConf
--                       (`set_runtime_conf`, `get_runtime_conf`), `server_spark_version`,
--                       `interrupt`, `close`
--   Spark/Like          objects.go: `like_match`, `equal_fold`, `like_clause`
--   Spark/Objects       objects.go: `build_objects` and the listings below it
--   Spark/Quote         connection.go: `quote_ident`, `quote_qualified_name`
--   Spark/Connection    connection.go: `close_connection`, `get_table_schema`, what is not supported
--   Spark/Listing       connection.go: `get_table_types`, `get_info`, `get_objects`
--   Spark/Params        params.go: `column_to_literal`, `timestamp_to_micros`
--   Spark/Database      database.go and driver.go: `set_options`, `open_connection`
--   Spark/Statement     statement.go: the methods of a statement
--   Spark/Metadata      metadata.go: `build_info`, `build_table_types`
--   Export/World        c/driver.go: handles and their checks, `poison`, contexts; the state `World`
--   Export/Errors       setErr, setErrWithDetails, errToAdbcErr; the release and details of utils.c
--   Export/Options      exportStringOption, exportBytesOption
--   Export/Table        AdbcDriverSparkInit (`driver_init`)
--   Export/Streams      cArrayStream and the functions of an exported stream
--   Export/Databases    SparkDatabaseNew (`database_new`) and the others of a database
--   Export/Connections  SparkConnectionNew (`connection_new`) and the others of a connection
--   Export/Statements   SparkStatementNew (`statement_new`) and the others of a statement
--   Export/Poisoned, Export/Contexts, Export/Opening, Export/Closed, Export/Closing
--                       what is proved of several of these together
--   Tests               runs of the definitions, and each theorem applied to concrete inputs
-- A module below one of these holds what is proved of it.
--
-- State. A method that changes its receiver is a function to the new receiver and the result. The
-- configuration object that databases and clients share is an address in the database's store. Calls
-- of Retain, Release and cancel, and the requests that a client sends, are kept as lists or counts.
-- A panic is `none`, and in the C interface the flag that `poison` sets. A function of the C interface
-- takes the caller's struct, whose `private_data` is written as what it leads to, with the error struct
-- and the `World`, and its `Reply` has all of them as they are left.
--
-- Parameters. The gRPC service (`Service`) answers from all calls so far. Arrow's IPC decoder, the
-- printing of decimals, the Unicode tables beyond ASCII (`Unicode`), fresh UUIDs and the outcome of
-- grpc.NewClient are arguments. A Go map is the list of its entries in the order of the visit.
--
-- Fuel. `like_loop` has more than the steps that any pattern and name of the given lengths take;
-- `fold_loop` has more than the length of any case orbit of Unicode; the loops that read a reader to its
-- end take one step for each record and one for the end. The loop of `fill` is on the stream itself.
--
-- Not modelled: of c/driver.go the logging from the environment, releasePartitions and the copy of
-- partitions, which no call reaches, and the lines behind a type assertion that fails for every type of
-- Spark; of c/utils.c the functions that only forward; C memory beyond what a struct owns, and the
-- release callbacks of other drivers in a caller's error struct; gRPC codes from 2 ^ 31 on, which int32
-- would change; the generated protocol code, deadlines, TLS, allocators, mutexes (each call is one
-- step), Arrow builders and the schemas of metadata results, the Python package.
pub mod Base
pub mod Adbc
pub mod Arrow
pub mod Connect
pub mod Spark
pub mod Export
mod Tests
