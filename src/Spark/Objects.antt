-- ===== src/Spark/Objects.antt =====
-- driver/spark/objects.go: `buildObjects` and what it calls. A result is its nested rows; the Arrow
-- builders are not modelled, and a null list is `none`. Names are texts of runes.
pub mod Monad
pub mod Filters
pub mod Rows
pub mod Success
use Monad.*
use adbc_driver_spark.Base.{
  ℕ, zero, suc, ◌+◌, Bool, true, false, not, ◌&&◌, ◌||◌, Option, none, some, List, [], ◌∷◌, ◌++◌,
  Result, ok, err, leb, ◌==◌, if◌then◌else◌, is_nil, keep, length, get_elem?,
}
use adbc_driver_spark.Base.Int.{ℤ, pos, wrap32}
use adbc_driver_spark.Base.Text.{Text, Unicode, codes, text_eq, to_lower}
use adbc_driver_spark.Adbc.{GoError, Go}
use adbc_driver_spark.Arrow.{Field, Schema, Array, strings, booleans, other_array, Batch}
use adbc_driver_spark.Connect.Config.{Config}
use adbc_driver_spark.Connect.Client.{
  Service, Client, ResultReader, execute, read_all, schema_or_nil,
}
use adbc_driver_spark.Spark.Connection.{table_schema}
use adbc_driver_spark.Spark.Like.{
  equal_fold, matches_pattern, filter_by_pattern, is_pattern, like_clause,
}
use adbc_driver_spark.Spark.Quote.{quote_ident}

-- adbc.ObjectDepth, which is an int: the four values that ADBC names, "all" being columns, and any
-- other.
pub data Depth : Type 0 where
  catalogs db_schemas tables columns : Depth
  other_depth : ℤ → Depth

abbrev pub is_catalogs : Depth → Bool
is_catalogs Depth.catalogs = true
is_catalogs _ = false

abbrev pub is_db_schemas : Depth → Bool
is_db_schemas Depth.db_schemas = true
is_db_schemas _ = false

abbrev pub is_columns : Depth → Bool
is_columns Depth.columns = true
is_columns _ = false

pub record ColumnRow : Type 0 where
  pub name : Text
  pub ordinal : ℤ

-- `constraints` is always the empty list.
pub record TableRow : Type 0 where
  pub name : Text
  pub table_type : Text
  pub columns : Option (List ColumnRow)
  pub constraints : List Text

pub record SchemaRow : Type 0 where
  pub name : Text
  pub tables : Option (List TableRow)

pub record CatalogRow : Type 0 where
  pub name : Text
  pub schemas : Option (List SchemaRow)

pub record TableEntry : Type 0 where
  pub name : Text
  pub table_type : Text

-- strings.EqualFold
unfoldable pub text_equal_fold : Unicode → Text → Text → Bool
unfolding equal_fold
text_equal_fold u [] [] = true
text_equal_fold u [] (_ ∷ _) = false
text_equal_fold u (_ ∷ _) [] = false
text_equal_fold u (a ∷ s) (b ∷ t) = equal_fold u a b && text_equal_fold u s t

unfoldable pub any_equal_fold : Unicode → Text → List Text → Bool
unfolding text_equal_fold
any_equal_fold u t [] = false
any_equal_fold u t (f ∷ fs) = text_equal_fold u f t || any_equal_fold u t fs

unfoldable pub table_type_allowed : Unicode → Text → List Text → Bool
unfolding any_equal_fold
table_type_allowed u tt' filter' = is_nil filter' || any_equal_fold u tt' filter'

-- The first field of the name, at `i` or later; 0 if there is none.
unfoldable pub column_index : Unicode → Text → ℕ → Schema → ℕ
unfolding text_equal_fold
column_index u column i [] = 0
column_index u column i (f ∷ fs) =
    let rest = column_index u column (suc i) fs in
    if text_equal_fold u f.name column then i else rest

-- The values of a string column that are not null.
abbrev pub present : List (Option Text) → List Text
present [] = []
present (none ∷ cells) = present cells
present (some t ∷ cells) = t ∷ present cells

abbrev pub string_cells : Option Array → List Text
string_cells none = []
string_cells (some (strings cells)) = present cells
string_cells (some (booleans _)) = []
string_cells (some (other_array _)) = []

-- The loop of `queryStrings` over the records.
unfoldable pub string_column : ℕ → List Batch → List Text
string_column idx [] = []
string_column idx (b ∷ bs) = string_cells (get_elem? b idx) ++ string_column idx bs

-- The last field whose name is `name` in lower case, at `i` or later.
unfoldable pub last_index : Unicode → Text → ℕ → Option ℕ → Schema → Option ℕ
unfolding to_lower text_eq
last_index u name i found [] = found
last_index u name i found (f ∷ fs) =
    last_index u name (suc i) (if text_eq (to_lower u f.name) name then some i else found) fs

abbrev pub or_zero : Option ℕ → ℕ
or_zero none = 0
or_zero (some i) = i

-- temp.Value(r), if there is such a column and it is not null there.
abbrev pub flag_at : Option (Option Bool) → Bool
flag_at none = false
flag_at (some none) = false
flag_at (some (some b)) = b

abbrev pub flags_of : Option Array → List (Option Bool)
flags_of (some (booleans flags)) = flags
flags_of (some (strings _)) = []
flags_of (some (other_array _)) = []
flags_of none = []

abbrev pub temp_column : Option ℕ → Batch → List (Option Bool)
temp_column none b = []
temp_column (some i) b = flags_of (get_elem? b i)

-- The loop of `listTables` over the rows of a record, from row `r`.
unfoldable pub table_entries :
    Unicode → Option Text → List (Option Bool) → ℕ → List (Option Text) → List TableEntry
unfolding matches_pattern
table_entries u pattern temp r [] = []
table_entries u pattern temp r (none ∷ cells) = table_entries u pattern temp (suc r) cells
table_entries u pattern temp r (some t ∷ cells) =
    let rest = table_entries u pattern temp (suc r) cells in
    let type = if flag_at (get_elem? temp r) then codes "TEMPORARY" else codes "TABLE" in
    if matches_pattern u pattern t then record { name = t; table_type = type } ∷ rest else rest

-- One record; `none` is the panic of a record with fewer columns.
abbrev pub batch_entries :
    Unicode → Option Text → List (Option Bool) → Option Array → Option (List TableEntry)
batch_entries u pattern temp none = none
batch_entries u pattern temp (some (strings cells)) = some (table_entries u pattern temp 0 cells)
batch_entries u pattern temp (some (booleans _)) = some []
batch_entries u pattern temp (some (other_array _)) = some []

abbrev pub both : Option (List TableEntry) → Option (List TableEntry) → Option (List TableEntry)
both none later = none
both (some here) none = none
both (some here) (some later) = some (here ++ later)

unfoldable pub entries_of :
    Unicode → Option Text → ℕ → Option ℕ → List Batch → Option (List TableEntry)
unfolding table_entries
entries_of u pattern name_idx temp_idx [] = some []
entries_of u pattern name_idx temp_idx (b ∷ bs) =
    both (batch_entries u pattern (temp_column temp_idx b) (get_elem? b name_idx))
      (entries_of u pattern name_idx temp_idx bs)

-- The columns of a table that match, from position `i` on.
unfoldable pub column_rows : Unicode → Option Text → ℕ → Schema → List ColumnRow
unfolding matches_pattern
column_rows u pattern i [] = []
column_rows u pattern i (f ∷ fs) =
    let rest = column_rows u pattern (suc i) fs in
    if matches_pattern u pattern f.name
    then record { name = f.name; ordinal = wrap32 (pos (i + 1)) } ∷ rest
    else rest

-- A catalog that is named outright.
abbrev pub plain_name : Option Text → Option Text
plain_name none = none
plain_name (some p) = if not (is_nil p) && not (is_pattern p) then some p else none

module _ (u : Unicode) (svc : Service) (cfg : Config) where
  -- `queryStrings`
  unfoldable pub query_strings : Text → Text → M (List Text)
  unfolding execute read_all column_index string_column
  query_strings sql column = do
    reader ← run (λ c. execute svc cfg c sql [])
    batches ← read_to_end svc reader
    pure (string_column (column_index u column 0 (schema_or_nil reader.schema)) batches)

  abbrev pub catalogs_or_default : Option Text → Go (List Text) → List Text
  catalogs_or_default catalog (err e) = codes "spark_catalog" ∷ []
  catalogs_or_default catalog (ok names) = filter_by_pattern u names catalog

  abbrev pub list_catalogs_by : Option Text → Option Text → M (List Text)
  list_catalogs_by catalog (some name) = pure (name ∷ [])
  list_catalogs_by catalog none = do
    names ← attempt (query_strings (codes "SHOW CATALOGS") (codes "catalog"))
    pure (catalogs_or_default catalog names)

  unfoldable pub list_catalogs : Option Text → M (List Text)
  unfolding is_pattern query_strings filter_by_pattern
  list_catalogs catalog = list_catalogs_by catalog (plain_name catalog)

  abbrev pub schemas_or_none : Option Text → Go (List Text) → List Text
  schemas_or_none db_schema (err e) = []
  schemas_or_none db_schema (ok names) = filter_by_pattern u names db_schema

  -- The second attempt, without a catalog, if the first has failed.
  abbrev pub retry_schemas : Option Text → Go (List Text) → M (Go (List Text))
  retry_schemas db_schema (ok names) = pure (ok names)
  retry_schemas db_schema (err e) =
      attempt (query_strings (codes "SHOW NAMESPACES" ++ like_clause db_schema) (codes "namespace"))

  unfoldable pub list_schemas : Text → Option Text → M (List Text)
  unfolding quote_ident like_clause query_strings filter_by_pattern
  list_schemas catalog db_schema = do
    first ← attempt (
        query_strings
          (codes "SHOW NAMESPACES IN " ++ (quote_ident catalog ++ like_clause db_schema))
          (codes "namespace"))
    names ← retry_schemas db_schema first
    pure (schemas_or_none db_schema names)

  unfoldable pub list_tables : Text → Text → Option Text → M (List TableEntry)
  unfolding execute quote_ident like_clause last_index entries_of
  list_tables catalog schema table_name = do
    let sql =
        codes "SHOW TABLES IN "
        ++ (quote_ident catalog ++ b'.' ∷ (quote_ident schema ++ like_clause table_name))
    reader ← run (λ c. execute svc cfg c sql [])
    let fields = schema_or_nil reader.schema
    let name_idx = or_zero (last_index u (codes "tablename") 0 none fields)
    let temp_idx = last_index u (codes "istemporary") 0 none fields
    consume svc reader (entries_of u table_name name_idx temp_idx)

  -- `appendColumns`
  unfoldable pub append_columns : Text → Text → Text → Option Text → M (List ColumnRow)
  unfolding table_schema column_rows
  append_columns catalog schema table column_name = do
    fields ← run (λ c. table_schema svc cfg c (some catalog) (some schema) table)
    pure (column_rows u column_name 0 fields)

  abbrev pub columns_or_empty : Go (List ColumnRow) → List ColumnRow
  columns_or_empty (err e) = []
  columns_or_empty (ok rows) = rows

  -- The columns of one table, at a depth: null, or a list that is empty after an error.
  abbrev pub table_columns : Bool → Text → Text → Option Text → Text → M (Option (List ColumnRow))
  table_columns false catalog schema column_name table = pure none
  table_columns true catalog schema column_name table = do
    rows ← attempt (append_columns catalog schema table column_name)
    pure (some (columns_or_empty rows))

  -- `appendTables`
  unfoldable pub append_tables :
      Depth → Text → Text → Option Text → Option Text → List Text → M (List TableRow)
  unfolding list_tables table_type_allowed append_columns
  append_tables depth catalog schema table_name column_name table_types = do
    entries ← list_tables catalog schema table_name
    for_each (keep (λ (t : TableEntry). table_type_allowed u t.table_type table_types) entries) λ t.
        do
          cols ← table_columns (is_columns depth) catalog schema column_name t.name
          pure (record {
            name = t.name;
            table_type = t.table_type;
            columns = cols;
            constraints = [];
          })

  -- The tables of one schema, at a depth.
  abbrev pub schema_tables :
      Bool
      → Depth
      → Text
      → Option Text
      → Option Text
      → List Text
      → Text
      → M (Option (List TableRow))
  schema_tables true depth catalog table_name column_name table_types schema = pure none
  schema_tables false depth catalog table_name column_name table_types schema = do
    rows ← append_tables depth catalog schema table_name column_name table_types
    pure (some rows)

  -- `appendDBSchemas`
  unfoldable pub append_db_schemas :
      Depth → Text → Option Text → Option Text → Option Text → List Text → M (List SchemaRow)
  unfolding list_schemas append_tables
  append_db_schemas depth catalog db_schema table_name column_name table_types = do
    schemas ← list_schemas catalog db_schema
    for_each schemas λ s. do
      tabs ← schema_tables (is_db_schemas depth) depth catalog table_name column_name table_types s
      pure (record { name = s; tables = tabs })

  -- The schemas of one catalog, at a depth.
  abbrev pub catalog_schemas :
      Bool
      → Depth
      → Option Text
      → Option Text
      → Option Text
      → List Text
      → Text
      → M (Option (List SchemaRow))
  catalog_schemas true depth db_schema table_name column_name table_types catalog = pure none
  catalog_schemas false depth db_schema table_name column_name table_types catalog = do
    rows ← append_db_schemas depth catalog db_schema table_name column_name table_types
    pure (some rows)

  unfoldable pub build_objects :
      Depth
      → Option Text
      → Option Text
      → Option Text
      → Option Text
      → List Text
      → M (List CatalogRow)
  unfolding list_catalogs append_db_schemas
  build_objects depth catalog db_schema table_name column_name table_types = do
    names ← list_catalogs catalog
    for_each names λ name. do
      schemas ←
          catalog_schemas (is_catalogs depth) depth db_schema table_name column_name table_types
            name
      pure (record { name = name; schemas = schemas })
