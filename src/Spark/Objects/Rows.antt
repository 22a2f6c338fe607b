-- ===== src/Spark/Objects/Rows.antt =====
-- `buildObjects` as a whole: what holds of every row that GetObjects returns.
use adbc_driver_spark.Base.{
  Bool, true, false, ◌≡◌, refl, not, Option, none, some, List, ok, err, All,
}
use adbc_driver_spark.Base.Text.{Text, Unicode}
use adbc_driver_spark.Adbc.{GoError, Go}
use adbc_driver_spark.Connect.Config.{Config}
use adbc_driver_spark.Connect.Client.{Service, Client, read_all}
use adbc_driver_spark.Spark.Like.{matches_pattern}
use adbc_driver_spark.Spark.Objects.Monad.{attempted, finish}
use adbc_driver_spark.Spark.Objects.{
  Depth, is_catalogs, is_db_schemas, is_columns, ColumnRow, TableRow, SchemaRow, CatalogRow,
  TableEntry, table_type_allowed, list_catalogs, list_schemas, list_tables, append_columns,
  columns_or_empty, table_columns, append_tables, schema_tables, append_db_schemas, catalog_schemas,
  build_objects, schemas_or_none,
}
use adbc_driver_spark.Spark.Objects.Filters.{
  Ensures, then'-Ensures, for_each-Ensures, pure-Ensures, keep-All, filter_by_pattern-All,
  column_rows-All, OfList, entries_of-All, All-total,
}

-- A list that is null or not, as `null` says, and whose rows are all as `P` says.
abbrev pub ListAt : {A : Type 0} → Bool → (A → Type 0) → Option (List A) → Type 0
ListAt null P none = null ≡ true
ListAt null P (some rows) = (null ≡ false) × All P rows

module _ (u : Unicode) (depth : Depth) (db_schema table_name column_name : Option Text)
    (table_types : List Text) where
  abbrev pub ColumnFits : ColumnRow → Type 0
  ColumnFits row = matches_pattern u column_name row.name ≡ true

  -- The table's name and type pass the filters, and its columns are there at the depth of columns.
  abbrev pub TableFits : TableRow → Type 0
  TableFits row =
      (matches_pattern u table_name row.name ≡ true)
      × (table_type_allowed u row.table_type table_types ≡ true)
      × ListAt (not (is_columns depth)) ColumnFits row.columns

  abbrev pub SchemaFits : SchemaRow → Type 0
  SchemaFits row =
      (matches_pattern u db_schema row.name ≡ true)
      × ListAt (is_db_schemas depth) TableFits row.tables

  abbrev pub CatalogFits : CatalogRow → Type 0
  CatalogFits row = ListAt (is_catalogs depth) SchemaFits row.schemas

-- What holds of a value that is no error.
abbrev OfGo : {A : Type 0} → (A → Type 0) → Go A → Type 0
OfGo Q (err e) = Unit
OfGo Q (ok a) = Q a

Ensures-total : {A : Type 0} (o : Option (Client × Go A)) → Ensures (λ _. Unit) o
Ensures-total o = record { holds = λ e. tt }

finish-Ensures :
    {A : Type 0} (P : A → Type 0) (c : Client) (e : Option GoError) (o : Option (List A))
    → OfList P o
    → Ensures (All P) (finish c e o)
finish-Ensures P c e none h = record { holds = λ e. cc }
finish-Ensures P c none (some xs) h = pure-Ensures (All P) xs c h
finish-Ensures P c (some e) (some xs) h = record { holds = λ e. cc }

attempt-Ensures :
    {A : Type 0} (Q : A → Type 0) (o : Option (Client × Go A))
    → Ensures Q o
    → Ensures (OfGo Q) (attempted o)
attempt-Ensures Q none h = record { holds = λ e. cc }
attempt-Ensures Q (some (c, err e)) h = pure-Ensures (OfGo Q) (err e) c tt
attempt-Ensures Q (some (c, ok a)) h = pure-Ensures (OfGo Q) (ok a) c (h.holds refl)

module _ (u : Unicode) (svc : Service) (cfg : Config) where
  list_schemas-Ensures :
      (catalog : Text) (db_schema : Option Text) (c : Client)
      → Ensures
          (All (λ n. matches_pattern u db_schema n ≡ true))
          (list_schemas u svc cfg catalog db_schema c)
  unfolding list_schemas
  list_schemas-Ensures catalog db_schema c =
      then'-Ensures (λ _. Unit) _ _ _ (Ensures-total _)
        λ first d _.
          then'-Ensures (λ _. Unit) _ _ _ (Ensures-total _)
            λ names e _. pure-Ensures _ _ e (kept names)
    where
      kept :
          (names : Go (List Text))
          → All
              (λ n. matches_pattern u db_schema n ≡ true)
              (schemas_or_none u svc cfg db_schema names)
      kept (err e) = tt
      kept (ok names) = filter_by_pattern-All u names db_schema

  list_tables-Ensures :
      (catalog schema : Text) (table_name : Option Text) (c : Client)
      → Ensures
          (All (λ (t : TableEntry). matches_pattern u table_name t.name ≡ true))
          (list_tables u svc cfg catalog schema table_name c)
  unfolding list_tables
  list_tables-Ensures catalog schema table_name c =
      then'-Ensures (λ _. Unit) _ _ _ (Ensures-total _)
        λ reader d _.
          finish-Ensures _ _ _ _ (entries_of-All u table_name _ _ (read_all svc.decode reader).0)

  append_columns-Ensures :
      (catalog schema table : Text) (column_name : Option Text) (c : Client)
      → Ensures
          (All (λ (r : ColumnRow). matches_pattern u column_name r.name ≡ true))
          (append_columns u svc cfg catalog schema table column_name c)
  unfolding append_columns
  append_columns-Ensures catalog schema table column_name c =
      then'-Ensures (λ _. Unit) _ _ _ (Ensures-total _)
        λ fields d _. pure-Ensures _ _ d (column_rows-All u column_name 0 fields)

  module _ (depth : Depth) (db_schema table_name column_name : Option Text)
      (table_types : List Text) where
    table_columns-Ensures :
        (with_columns : Bool) (catalog schema table : Text) (c : Client)
        → Ensures
            (ListAt
              (not with_columns)
              (ColumnFits u depth db_schema table_name column_name table_types))
            (table_columns u svc cfg with_columns catalog schema column_name table c)
    table_columns-Ensures false catalog schema table c = pure-Ensures _ none c refl
    table_columns-Ensures true catalog schema table c =
        then'-Ensures _ _ _ _
          (attempt-Ensures _ _ (append_columns-Ensures catalog schema table column_name c))
          λ rows d all. pure-Ensures _ _ d (refl, or_empty rows all)
      where
        or_empty :
            (rows : Go (List ColumnRow))
            → OfGo (All (ColumnFits u depth db_schema table_name column_name table_types)) rows
            → All
                (ColumnFits u depth db_schema table_name column_name table_types)
                (columns_or_empty u svc cfg rows)
        or_empty (err e) h = tt
        or_empty (ok rows) h = h

    append_tables-Ensures :
        (catalog schema : Text) (c : Client)
        → Ensures
            (All (TableFits u depth db_schema table_name column_name table_types))
            (append_tables u svc cfg depth catalog schema table_name column_name table_types c)
    unfolding append_tables
    append_tables-Ensures catalog schema c =
        then'-Ensures _ _ _ _ (list_tables-Ensures catalog schema table_name c) λ entries d named.
          for_each-Ensures _ _ _ _ d (keep-All _ _ entries named) λ t e fits.
            then'-Ensures _ _ _ _ (table_columns-Ensures (is_columns depth) catalog schema t.name e)
              λ cols g listed. pure-Ensures _ _ g (fits.0, fits.1, listed)

    schema_tables-Ensures :
        (leave_out : Bool) (catalog schema : Text) (c : Client)
        → Ensures
            (ListAt leave_out (TableFits u depth db_schema table_name column_name table_types))
            (schema_tables u svc cfg leave_out depth catalog table_name column_name table_types
              schema c)
    schema_tables-Ensures true catalog schema c = pure-Ensures _ none c refl
    schema_tables-Ensures false catalog schema c =
        then'-Ensures _ _ _ _ (append_tables-Ensures catalog schema c)
          λ rows d fit. pure-Ensures _ _ d (refl, fit)

    append_db_schemas-Ensures :
        (catalog : Text) (c : Client)
        → Ensures (All (SchemaFits u depth db_schema table_name column_name table_types)) (
            append_db_schemas u svc cfg depth catalog db_schema table_name column_name table_types
              c)
    unfolding append_db_schemas
    append_db_schemas-Ensures catalog c =
        then'-Ensures _ _ _ _ (list_schemas-Ensures catalog db_schema c) λ schemas d named.
          for_each-Ensures _ _ schemas _ d named λ s e fits.
            then'-Ensures _ _ _ _ (schema_tables-Ensures (is_db_schemas depth) catalog s e)
              λ tabs g listed. pure-Ensures _ _ g (fits, listed)

    catalog_schemas-Ensures :
        (leave_out : Bool) (catalog : Text) (c : Client)
        → Ensures
            (ListAt leave_out (SchemaFits u depth db_schema table_name column_name table_types))
            (catalog_schemas u svc cfg leave_out depth db_schema table_name column_name table_types
              catalog c)
    catalog_schemas-Ensures true catalog c = pure-Ensures _ none c refl
    catalog_schemas-Ensures false catalog c =
        then'-Ensures _ _ _ _ (append_db_schemas-Ensures catalog c)
          λ rows d fit. pure-Ensures _ _ d (refl, fit)

-- In every result of `build_objects`, whatever the server answers: the schemas of a catalog are null
-- exactly at the depth of catalogs, the tables of a schema exactly at the depth of schemas, and the
-- columns of a table exactly at any depth but that of columns; and every schema, table and column
-- name passes its pattern, and every table type the type filter.
pub build_objects-CatalogFits :
    (u : Unicode) (svc : Service) (cfg : Config) (depth : Depth)
    (catalog db_schema table_name column_name : Option Text) (table_types : List Text) (c : Client)
    {c' : Client} {rows : List CatalogRow}
    → build_objects u svc cfg depth catalog db_schema table_name column_name table_types c
      ≡ some (c', ok rows)
    → All (CatalogFits u depth db_schema table_name column_name table_types) rows
unfolding build_objects
build_objects-CatalogFits u svc cfg depth catalog db_schema table_name column_name table_types c e =
    let ensured =
      then'-Ensures (λ _. Unit)
        (All (CatalogFits u depth db_schema table_name column_name table_types))
        (list_catalogs u svc cfg catalog c) _ (Ensures-total _)
        λ names d _.
          for_each-Ensures (λ _. Unit) _ names _ d (All-total names (λ _. tt))
            λ name f _.
              then'-Ensures _ _ _ _
                (catalog_schemas-Ensures u svc cfg depth db_schema table_name column_name
                  table_types (is_catalogs depth) name f)
                λ schemas g listed. pure-Ensures _ _ g listed in
    ensured.holds e
