-- ===== src/Spark/Objects/Success.antt =====
-- The listings of catalogs and schemas, which go on after an error of the server.
use adbc_driver_spark.Base.{◌≡◌, refl, Option, none, some, List, [], ◌∷◌, ok, err}
use adbc_driver_spark.Base.Text.{Text, Unicode}
use adbc_driver_spark.Adbc.{Go}
use adbc_driver_spark.Connect.Config.{Config}
use adbc_driver_spark.Connect.Client.{Service, Client}
use adbc_driver_spark.Spark.Objects.Monad.{M, pure, then', for_each, attempted}
use adbc_driver_spark.Spark.Objects.{
  Depth, plain_name, query_strings, list_catalogs_by, list_catalogs, retry_schemas, list_schemas,
  append_db_schemas, build_objects,
}

-- A call that neither panics nor fails.
pub record Succeeds {A : Type 0} (o : Option (Client × Go A)) : Type 0 where
  pub after : Client
  pub value : A
  pub returned : o ≡ some (after, ok value)

data IsDone {A : Type 0} : Option (Client × Go A) → Type 0 where
  done : (p : Client × Go A) → IsDone (some p)

pure-Succeeds : {A : Type 0} (a : A) (c : Client) → Succeeds (pure a c)
pure-Succeeds a c = record { after = c; value = a; returned = refl }

then'-IsDone :
    {A B : Type 0} (p : Client × Go A) (f : A → M B)
    → ((a : A) (c : Client) → IsDone (f a c))
    → IsDone (then' (some p) f)
unfolding then'
then'-IsDone (c, err e) f k = done (c, err e)
then'-IsDone (c, ok a) f k = k a c

then'-Succeeds :
    {A B : Type 0} {o : Option (Client × Go A)} (f : A → M B)
    → Succeeds o
    → ((a : A) (c : Client) → Succeeds (f a c))
    → Succeeds (then' o f)
unfolding then'
then'-Succeeds f s k = rw (s.returned) (k s.value s.after)

for_each-Succeeds :
    {A B : Type 0} (xs : List A) (f : A → M B) (c : Client)
    → ((x : A) (c : Client) → Succeeds (f x c))
    → Succeeds (for_each xs f c)
for_each-Succeeds [] f c k = pure-Succeeds [] c
for_each-Succeeds (x ∷ xs) f c k =
    then'-Succeeds _ (k x c)
      λ y d. then'-Succeeds _ (for_each-Succeeds xs f d k) λ ys e. pure-Succeeds (y ∷ ys) e

attempted-Succeeds : {A : Type 0} {o : Option (Client × Go A)} → IsDone o → Succeeds (attempted o)
attempted-Succeeds (done (c, r)) = pure-Succeeds r c

module _ (u : Unicode) (svc : Service) (cfg : Config) where
  query_strings-IsDone :
      (sql column : Text) (c : Client) → IsDone (query_strings u svc cfg sql column c)
  unfolding query_strings
  query_strings-IsDone sql column c =
      then'-IsDone _ _ λ reader d. then'-IsDone _ _ λ batches e. done (e, ok _)

  list_catalogs-Succeeds :
      (catalog : Option Text) (c : Client) → Succeeds (list_catalogs u svc cfg catalog c)
  unfolding list_catalogs
  list_catalogs-Succeeds catalog c = by_name (plain_name catalog)
    where
      by_name : (name : Option Text) → Succeeds (list_catalogs_by u svc cfg catalog name c)
      by_name (some name) = pure-Succeeds (name ∷ []) c
      by_name none =
          then'-Succeeds _ (attempted-Succeeds (query_strings-IsDone _ _ c))
            λ names d. pure-Succeeds _ d

  retry_schemas-Succeeds :
      (db_schema : Option Text) (first : Go (List Text)) (c : Client)
      → Succeeds (retry_schemas u svc cfg db_schema first c)
  retry_schemas-Succeeds db_schema (ok names) c = pure-Succeeds (ok names) c
  retry_schemas-Succeeds db_schema (err e) c = attempted-Succeeds (query_strings-IsDone _ _ c)

  list_schemas-Succeeds :
      (catalog : Text) (db_schema : Option Text) (c : Client)
      → Succeeds (list_schemas u svc cfg catalog db_schema c)
  unfolding list_schemas
  list_schemas-Succeeds catalog db_schema c =
      then'-Succeeds _ (attempted-Succeeds (query_strings-IsDone _ _ c)) λ first d.
        then'-Succeeds _ (retry_schemas-Succeeds db_schema first d) λ names e. pure-Succeeds _ e

  module _ (db_schema table_name column_name : Option Text) (table_types : List Text) where
    append_db_schemas-Succeeds :
        (catalog : Text) (c : Client)
        → Succeeds (
            append_db_schemas u svc cfg Depth.db_schemas catalog db_schema table_name column_name
              table_types c)
    unfolding append_db_schemas
    append_db_schemas-Succeeds catalog c =
        then'-Succeeds _ (list_schemas-Succeeds catalog db_schema c) λ schemas d.
          for_each-Succeeds schemas _ d
            λ s e. then'-Succeeds _ (pure-Succeeds none e) λ tabs g. pure-Succeeds _ g

-- At the depths of catalogs and of schemas `build_objects`, which `get_objects` calls with the client of
-- an open connection, never fails and never panics, whatever the server answers, be it nothing but
-- errors.
pub build_objects-Succeeds :
    (u : Unicode) (svc : Service) (cfg : Config)
    (catalog db_schema table_name column_name : Option Text) (table_types : List Text) (c : Client)
    → Succeeds (
        build_objects u svc cfg Depth.catalogs catalog db_schema table_name column_name table_types
          c)
      × Succeeds (
          build_objects u svc cfg Depth.db_schemas catalog db_schema table_name column_name
            table_types c)
unfolding build_objects
build_objects-Succeeds u svc cfg catalog db_schema table_name column_name table_types c = (
  then'-Succeeds _ (list_catalogs-Succeeds u svc cfg catalog c) λ names d.
      for_each-Succeeds names _ d
        λ name e. then'-Succeeds _ (pure-Succeeds none e) λ schemas g. pure-Succeeds _ g,
  then'-Succeeds _ (list_catalogs-Succeeds u svc cfg catalog c) λ names d.
      for_each-Succeeds names _ d λ name e.
        then'-Succeeds _
          (then'-Succeeds _
            (append_db_schemas-Succeeds u svc cfg db_schema table_name column_name table_types name
              e)
            λ rows h. pure-Succeeds _ h)
          λ schemas g. pure-Succeeds _ g,
)
