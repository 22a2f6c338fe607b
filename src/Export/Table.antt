-- ===== src/Export/Table.antt =====
-- c/driver.go: `AdbcDriverSparkInit`. The function table is the list of the assignments to its fields;
-- the fields are those of struct AdbcDriver in c/arrow-adbc/adbc.h, but `private_data`,
-- `private_manager` and `release`, which belong to the driver manager.
pub mod Wiring
use adbc_driver_spark.Base.{ℕ, Option, none, some, List, [], ◌∷◌, ◌++◌, ◌==◌, if◌then◌else◌}
use adbc_driver_spark.Base.Int.{ℤ, pos, negsuc}
use adbc_driver_spark.Base.Text.{Text, codes}
use adbc_driver_spark.Adbc.{Status}
use adbc_driver_spark.Connect.Config.{decimal}
use adbc_driver_spark.Export.Errors.{Printer, AdbcError, set_err}

-- A field, and the function that is stored in it.
abbrev pub Entry : Type 0
Entry = Text × Text

-- Up to the offset ADBC_DRIVER_1_0_0_SIZE.
abbrev pub fields_1_0_0 : List Text
fields_1_0_0 =
    codes "DatabaseInit"
    ∷ codes "DatabaseNew"
    ∷ codes "DatabaseSetOption"
    ∷ codes "DatabaseRelease"
    ∷ codes "ConnectionCommit"
    ∷ codes "ConnectionGetInfo"
    ∷ codes "ConnectionGetObjects"
    ∷ codes "ConnectionGetTableSchema"
    ∷ codes "ConnectionGetTableTypes"
    ∷ codes "ConnectionInit"
    ∷ codes "ConnectionNew"
    ∷ codes "ConnectionSetOption"
    ∷ codes "ConnectionReadPartition"
    ∷ codes "ConnectionRelease"
    ∷ codes "ConnectionRollback"
    ∷ codes "StatementBind"
    ∷ codes "StatementBindStream"
    ∷ codes "StatementExecuteQuery"
    ∷ codes "StatementExecutePartitions"
    ∷ codes "StatementGetParameterSchema"
    ∷ codes "StatementNew"
    ∷ codes "StatementPrepare"
    ∷ codes "StatementRelease"
    ∷ codes "StatementSetOption"
    ∷ codes "StatementSetSqlQuery"
    ∷ codes "StatementSetSubstraitPlan"
    ∷ []

abbrev pub fields_added_in_1_1_0 : List Text
fields_added_in_1_1_0 =
    codes "ErrorGetDetailCount"
    ∷ codes "ErrorGetDetail"
    ∷ codes "ErrorFromArrayStream"
    ∷ codes "DatabaseGetOption"
    ∷ codes "DatabaseGetOptionBytes"
    ∷ codes "DatabaseGetOptionDouble"
    ∷ codes "DatabaseGetOptionInt"
    ∷ codes "DatabaseSetOptionBytes"
    ∷ codes "DatabaseSetOptionDouble"
    ∷ codes "DatabaseSetOptionInt"
    ∷ codes "ConnectionCancel"
    ∷ codes "ConnectionGetOption"
    ∷ codes "ConnectionGetOptionBytes"
    ∷ codes "ConnectionGetOptionDouble"
    ∷ codes "ConnectionGetOptionInt"
    ∷ codes "ConnectionGetStatistics"
    ∷ codes "ConnectionGetStatisticNames"
    ∷ codes "ConnectionSetOptionBytes"
    ∷ codes "ConnectionSetOptionDouble"
    ∷ codes "ConnectionSetOptionInt"
    ∷ codes "StatementCancel"
    ∷ codes "StatementExecuteSchema"
    ∷ codes "StatementGetOption"
    ∷ codes "StatementGetOptionBytes"
    ∷ codes "StatementGetOptionDouble"
    ∷ codes "StatementGetOptionInt"
    ∷ codes "StatementSetOptionBytes"
    ∷ codes "StatementSetOptionDouble"
    ∷ codes "StatementSetOptionInt"
    ∷ []

abbrev pub common_entries : List Entry
common_entries =
    (codes "DatabaseInit", codes "SparkDatabaseInit")
    ∷ (codes "DatabaseNew", codes "SparkDatabaseNew")
    ∷ (codes "DatabaseRelease", codes "SparkDatabaseRelease")
    ∷ (codes "DatabaseSetOption", codes "SparkDatabaseSetOption")
    ∷ (codes "ConnectionNew", codes "SparkConnectionNew")
    ∷ (codes "ConnectionInit", codes "SparkConnectionInit")
    ∷ (codes "ConnectionRelease", codes "SparkConnectionRelease")
    ∷ (codes "ConnectionSetOption", codes "SparkConnectionSetOption")
    ∷ (codes "ConnectionGetInfo", codes "SparkConnectionGetInfo")
    ∷ (codes "ConnectionGetObjects", codes "SparkConnectionGetObjects")
    ∷ (codes "ConnectionGetTableSchema", codes "SparkConnectionGetTableSchema")
    ∷ (codes "ConnectionGetTableTypes", codes "SparkConnectionGetTableTypes")
    ∷ (codes "ConnectionReadPartition", codes "SparkConnectionReadPartition")
    ∷ (codes "ConnectionCommit", codes "SparkConnectionCommit")
    ∷ (codes "ConnectionRollback", codes "SparkConnectionRollback")
    ∷ (codes "StatementNew", codes "SparkStatementNew")
    ∷ (codes "StatementRelease", codes "SparkStatementRelease")
    ∷ (codes "StatementSetOption", codes "SparkStatementSetOption")
    ∷ (codes "StatementSetSqlQuery", codes "SparkStatementSetSqlQuery")
    ∷ (codes "StatementSetSubstraitPlan", codes "SparkStatementSetSubstraitPlan")
    ∷ (codes "StatementBind", codes "SparkStatementBind")
    ∷ (codes "StatementBindStream", codes "SparkStatementBindStream")
    ∷ (codes "StatementExecuteQuery", codes "SparkStatementExecuteQuery")
    ∷ (codes "StatementExecutePartitions", codes "SparkStatementExecutePartitions")
    ∷ (codes "StatementGetParameterSchema", codes "SparkStatementGetParameterSchema")
    ∷ (codes "StatementPrepare", codes "SparkStatementPrepare")
    ∷ []

abbrev pub entries_1_1_0 : List Entry
entries_1_1_0 =
    (codes "ErrorGetDetailCount", codes "SparkErrorGetDetailCount")
    ∷ (codes "ErrorGetDetail", codes "SparkErrorGetDetail")
    ∷ (codes "ErrorFromArrayStream", codes "SparkErrorFromArrayStream")
    ∷ (codes "DatabaseGetOption", codes "SparkDatabaseGetOption")
    ∷ (codes "DatabaseGetOptionBytes", codes "SparkDatabaseGetOptionBytes")
    ∷ (codes "DatabaseGetOptionDouble", codes "SparkDatabaseGetOptionDouble")
    ∷ (codes "DatabaseGetOptionInt", codes "SparkDatabaseGetOptionInt")
    ∷ (codes "DatabaseSetOptionBytes", codes "SparkDatabaseSetOptionBytes")
    ∷ (codes "DatabaseSetOptionDouble", codes "SparkDatabaseSetOptionDouble")
    ∷ (codes "DatabaseSetOptionInt", codes "SparkDatabaseSetOptionInt")
    ∷ (codes "ConnectionCancel", codes "SparkConnectionCancel")
    ∷ (codes "ConnectionGetOption", codes "SparkConnectionGetOption")
    ∷ (codes "ConnectionGetOptionBytes", codes "SparkConnectionGetOptionBytes")
    ∷ (codes "ConnectionGetOptionDouble", codes "SparkConnectionGetOptionDouble")
    ∷ (codes "ConnectionGetOptionInt", codes "SparkConnectionGetOptionInt")
    ∷ (codes "ConnectionGetStatistics", codes "SparkConnectionGetStatistics")
    ∷ (codes "ConnectionGetStatisticNames", codes "SparkConnectionGetStatisticNames")
    ∷ (codes "ConnectionSetOptionBytes", codes "SparkConnectionSetOptionBytes")
    ∷ (codes "ConnectionSetOptionDouble", codes "SparkConnectionSetOptionDouble")
    ∷ (codes "ConnectionSetOptionInt", codes "SparkConnectionSetOptionInt")
    ∷ (codes "StatementCancel", codes "SparkStatementCancel")
    ∷ (codes "StatementExecuteSchema", codes "SparkStatementExecuteSchema")
    ∷ (codes "StatementGetOption", codes "SparkStatementGetOption")
    ∷ (codes "StatementGetOptionBytes", codes "SparkStatementGetOptionBytes")
    ∷ (codes "StatementGetOptionDouble", codes "SparkStatementGetOptionDouble")
    ∷ (codes "StatementGetOptionInt", codes "SparkStatementGetOptionInt")
    ∷ (codes "StatementSetOptionBytes", codes "SparkStatementSetOptionBytes")
    ∷ (codes "StatementSetOptionDouble", codes "SparkStatementSetOptionDouble")
    ∷ (codes "StatementSetOptionInt", codes "SparkStatementSetOptionInt")
    ∷ []

pub data Version : Type 0 where
  version_1_0_0 version_1_1_0 other_version : Version

-- ADBC_VERSION_1_0_0 and ADBC_VERSION_1_1_0
abbrev pub version_of : ℤ → Version
version_of (negsuc n) = other_version
version_of (pos n) =
    if n == 1000000 then version_1_0_0 else if n == 1001000 then version_1_1_0 else other_version

abbrev pub init_at :
    Printer → ℤ → Option AdbcError → Version → List Entry × Option AdbcError × Status
init_at p version e version_1_0_0 = (common_entries, e, Status.ok)
init_at p version e version_1_1_0 = (common_entries ++ entries_1_1_0, e, Status.ok)
init_at p version e other_version = (
  [],
  set_err p e (codes "Only version 1.0.0/1.1.0 supported, got %d") (decimal version ∷ []),
  Status.not_implemented,
)

-- `AdbcDriverSparkInit` on a table, which is cleared first.
unfoldable pub driver_init : Printer → ℤ → Option AdbcError → List Entry × Option AdbcError × Status
unfolding set_err decimal
driver_init p version e = init_at p version e (version_of version)
