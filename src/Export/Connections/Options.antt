-- ===== src/Export/Connections/Options.antt =====
-- c/driver.go: the functions of a connection that are refused once it is initialized: those that read
-- and write options, and the statistics.
use adbc_driver_spark.Base.{Option, ◌++◌}
use adbc_driver_spark.Base.Text.{Text, codes}
use adbc_driver_spark.Adbc.{Status}
use adbc_driver_spark.Export.Errors.{AdbcError}
use adbc_driver_spark.Export.World.{
  Env, World, CConn, Pointer, Reply, complain, check_conn_init, checked,
}

-- The answer to a call of a method that the connection does not have; `fname` is the name that the
-- function reports.
abbrev pub unsupported_call :
    Env → World → Option AdbcError → Pointer CConn → Text → Text → Reply CConn
unsupported_call env w e cnxn fname why =
    checked cnxn w (check_conn_init env w e cnxn fname)
      (λ _. complain env cnxn w e (fname ++ why) Status.not_implemented)

-- `SparkConnectionGetOption`
unfoldable pub connection_get_option : Env → World → Option AdbcError → Pointer CConn → Reply CConn
unfolding check_conn_init checked complain
connection_get_option env w e cnxn =
    unsupported_call env w e cnxn (codes "AdbcConnectionGetOption")
      (codes ": options are not supported")

-- `SparkConnectionGetOptionBytes`
unfoldable pub connection_get_option_bytes :
    Env → World → Option AdbcError → Pointer CConn → Reply CConn
unfolding check_conn_init checked complain
connection_get_option_bytes env w e cnxn =
    unsupported_call env w e cnxn (codes "AdbcConnectionGetOptionBytes")
      (codes ": options are not supported")

-- `SparkConnectionGetOptionDouble`
unfoldable pub connection_get_option_double :
    Env → World → Option AdbcError → Pointer CConn → Reply CConn
unfolding check_conn_init checked complain
connection_get_option_double env w e cnxn =
    unsupported_call env w e cnxn (codes "AdbcConnectionGetOptionDouble")
      (codes ": options are not supported")

-- `SparkConnectionGetOptionInt`
unfoldable pub connection_get_option_int :
    Env → World → Option AdbcError → Pointer CConn → Reply CConn
unfolding check_conn_init checked complain
connection_get_option_int env w e cnxn =
    unsupported_call env w e cnxn (codes "AdbcConnectionGetOptionInt")
      (codes ": options are not supported")

-- `SparkConnectionSetOptionBytes`
unfoldable pub connection_set_option_bytes :
    Env → World → Option AdbcError → Pointer CConn → Reply CConn
unfolding check_conn_init checked complain
connection_set_option_bytes env w e cnxn =
    unsupported_call env w e cnxn (codes "AdbcConnectionSetOptionBytes")
      (codes ": options are not supported")

-- `SparkConnectionSetOptionDouble`
unfoldable pub connection_set_option_double :
    Env → World → Option AdbcError → Pointer CConn → Reply CConn
unfolding check_conn_init checked complain
connection_set_option_double env w e cnxn =
    unsupported_call env w e cnxn (codes "AdbcConnectionSetOptionDouble")
      (codes ": options are not supported")

-- `SparkConnectionSetOptionInt`
unfoldable pub connection_set_option_int :
    Env → World → Option AdbcError → Pointer CConn → Reply CConn
unfolding check_conn_init checked complain
connection_set_option_int env w e cnxn =
    unsupported_call env w e cnxn (codes "AdbcConnectionSetOptionInt")
      (codes ": options are not supported")

-- `SparkConnectionGetStatistics`
unfoldable pub connection_get_statistics :
    Env → World → Option AdbcError → Pointer CConn → Reply CConn
unfolding check_conn_init checked complain
connection_get_statistics env w e cnxn =
    unsupported_call env w e cnxn (codes "AdbcConnectionGetStatistics") (codes ": not supported")

-- `SparkConnectionGetStatisticNames`; it reports the name of `SparkConnectionGetStatistics`
unfoldable pub connection_get_statistic_names :
    Env → World → Option AdbcError → Pointer CConn → Reply CConn
unfolding check_conn_init checked complain
connection_get_statistic_names env w e cnxn =
    unsupported_call env w e cnxn (codes "AdbcConnectionGetStatistics") (codes ": not supported")
