-- ===== src/Spark/Metadata.antt =====
-- driver/spark/metadata.go: `stringInfo`, `buildInfo` and `buildTableTypes`. A map is a list of its
-- entries in the order in which `range` visits them. A result is its rows; the Arrow builders and the
-- schemas of the nested results are not modelled.
pub mod Info
use adbc_driver_spark.Base.{
  ℕ, Bool, true, false, ◌||◌, Option, none, some, List, [], ◌∷◌, Result, ok, err, ◌==◌,
  if◌then◌else◌, is_nil, map,
}
use adbc_driver_spark.Base.Text.{Text, codes}
use adbc_driver_spark.Adbc.{Go}
use adbc_driver_spark.Connect.Config.{Config}
use adbc_driver_spark.Connect.Client.{Service, Client, server_spark_version}

unfoldable pub spark_table_types : List Text
spark_table_types = codes "TABLE" ∷ codes "VIEW" ∷ codes "TEMPORARY" ∷ []

-- `buildTableTypes`: the rows of its one batch
unfoldable pub build_table_types : List Text
unfolding spark_table_types
build_table_types = spark_table_types

-- The info codes, as c/arrow-adbc/adbc.h numbers them.
abbrev pub info_vendor_name : ℕ
info_vendor_name = 0

abbrev pub info_vendor_version : ℕ
info_vendor_version = 1

abbrev pub info_vendor_arrow_version : ℕ
info_vendor_arrow_version = 2

abbrev pub info_driver_name : ℕ
info_driver_name = 100

abbrev pub info_driver_version : ℕ
info_driver_version = 101

abbrev pub info_driver_arrow_version : ℕ
info_driver_arrow_version = 102

abbrev pub InfoMap : Type 0
InfoMap = List (ℕ × Text)

-- `stringInfo`; the versions of the driver (set at build time) and of Arrow are arguments.
unfoldable pub string_info : Text → Text → InfoMap
string_info version arrow_version =
    (info_vendor_name, codes "Apache Spark")
    ∷ (info_vendor_arrow_version, arrow_version)
    ∷ (info_driver_name, codes "ADBC Spark Connect Driver (Go)")
    ∷ (info_driver_version, version)
    ∷ (info_driver_arrow_version, arrow_version)
    ∷ []

-- strInfo[code]
unfoldable pub info_lookup : ℕ → InfoMap → Option Text
info_lookup code [] = none
info_lookup code ((k, v) ∷ m) = let rest = info_lookup code m in if k == code then some v else rest

unfoldable pub requests_version : List ℕ → Bool
requests_version [] = false
requests_version (c ∷ cs) = c == info_vendor_version || requests_version cs

-- The vendor version, best-effort: an error or an empty text adds nothing.
abbrev pub add_version : InfoMap → Go Text → InfoMap
add_version m (err e) = m
add_version m (ok []) = m
add_version m (ok (c ∷ s)) = (info_vendor_version, c ∷ s) ∷ m

abbrev pub add_row : ℕ → Option Text → List (ℕ × Text) → List (ℕ × Text)
add_row code none rows = rows
add_row code (some v) rows = (code, v) ∷ rows

-- The loop over the wanted codes.
unfoldable pub info_rows : InfoMap → List ℕ → List (ℕ × Text)
unfolding info_lookup
info_rows m [] = []
info_rows m (code ∷ codes') = add_row code (info_lookup code m) (info_rows m codes')

abbrev pub info_codes : InfoMap → List ℕ
info_codes [] = []
info_codes ((k, _) ∷ m) = k ∷ info_codes m

abbrev pub wanted : List ℕ → InfoMap → List ℕ
wanted codes' m = if is_nil codes' then info_codes m else codes'

-- `buildInfo`: the client as it is left, and the rows.
unfoldable pub build_info :
    Service → Config → Text → Text → Client → List ℕ → Client × List (ℕ × Text)
unfolding string_info requests_version server_spark_version info_rows
build_info svc cfg version arrow_version c codes' =
    let base = string_info version arrow_version in
    let (c', v) = server_spark_version svc cfg c in
    let full = add_version base v in
    if is_nil codes' || requests_version codes'
    then (c', info_rows full (wanted codes' full))
    else (c, info_rows base (wanted codes' base))
