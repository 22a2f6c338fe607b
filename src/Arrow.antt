-- ===== src/Arrow.antt =====
-- What the driver reads of Arrow results (the library itself is third-party): a schema is its fields,
-- a record batch its columns.
use adbc_driver_spark.Base.{Bool, Option, List}
use adbc_driver_spark.Base.Text.{Text}

-- arrow.Field
pub record Field : Type 0 where
  pub name : Text
  pub data_type : Text

abbrev pub Schema : Type 0
Schema = List Field

-- *array.String, *array.Boolean, or any other array; `none` is a null.
pub data Array : Type 0 where
  strings : List (Option Text) → Array
  booleans : List (Option Bool) → Array
  other_array : Text → Array

-- arrow.RecordBatch
abbrev pub Batch : Type 0
Batch = List Array
