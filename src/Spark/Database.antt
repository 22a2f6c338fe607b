-- ===== src/Spark/Database.antt =====
-- driver/spark/database.go: `SetOptions`, `Open`, `firstNonEmpty`, and `NewDatabase` of driver.go.
-- A `*sparkconnect.Config` is an address in `store`: the database and the clients that it has opened
-- share one. A map of options is a list of its entries in the order in which `range` visits them.
pub mod Options
pub mod Atomicity
use adbc_driver_spark.Base.{
  ℕ, zero, suc, Bool, true, false, ◌&&◌, Option, none, some, List, [], ◌∷◌, ◌++◌, Result, ok, err,
  if◌then◌else◌, is_nil, length, get_elem?,
}
use adbc_driver_spark.Base.Text.{Text, Unicode, codes, one_of, cut_prefix, has_prefix}
use adbc_driver_spark.Adbc.{Status, Message, plain, format, wrap, GoError, Go, adbc_error, text_of}
use adbc_driver_spark.Connect.Config.{
  Config, Headers, insert, lookup, parse_bool, parse_connection_string, endpoint,
}
use adbc_driver_spark.Connect.Client.{Client, dial}

-- adbc.OptionKeyURI, OptionKeyUsername and OptionKeyPassword, as c/arrow-adbc/adbc.h spells them.
abbrev pub option_key_uri : Text
option_key_uri = codes "uri"

abbrev pub option_key_username : Text
option_key_username = codes "username"

abbrev pub option_key_password : Text
option_key_password = codes "password"

abbrev pub option_key_token : Text
option_key_token = codes "adbc.spark.token"

abbrev pub option_key_user_id : Text
option_key_user_id = codes "adbc.spark.user_id"

abbrev pub option_key_user_agent : Text
option_key_user_agent = codes "adbc.spark.user_agent"

abbrev pub option_key_session_id : Text
option_key_session_id = codes "adbc.spark.session_id"

abbrev pub option_key_tls_enabled : Text
option_key_tls_enabled = codes "adbc.spark.tls.enabled"

abbrev pub option_key_header_prefix : Text
option_key_header_prefix = codes "adbc.spark.headers."

-- The name behind the header prefix, if there is one that is not empty.
abbrev pub nonempty : Option Text → Option Text
nonempty none = none
nonempty (some []) = none
nonempty (some (c ∷ s)) = some (c ∷ s)

-- The `default` case of the switch on a key.
unfoldable pub apply_other_option : Config → Text → Text → Go Config
unfolding cut_prefix has_prefix insert
apply_other_option c key value = elim (nonempty (cut_prefix option_key_header_prefix key)) [
  | some name ↦ ok (record c { headers = insert name value c.headers })
  | none ↦
      if has_prefix (codes "adbc.spark.") key
      then err
          (adbc_error (format (codes "spark: unknown option ") (key ∷ [])) Status.not_implemented)
      else ok c
]

abbrev pub tls_option : Config → Text → Option Bool → Go Config
tls_option c value none = err (
    adbc_error (format (codes "spark: invalid boolean for adbc.spark.tls.enabled: ") (value ∷ []))
      Status.invalid_argument)
tls_option c value (some b) = ok (record c { use_tls = b })

-- One round of the loop over the options.
unfoldable pub apply_option : Config → Text → Text → Go Config
unfolding one_of parse_bool apply_other_option
apply_option c key value =
    if one_of (option_key_uri ∷ codes "adbc.spark.uri" ∷ []) key
    then ok c
    else if one_of (option_key_token ∷ option_key_password ∷ []) key
    then ok (record c { token = value })
    else if one_of (option_key_user_id ∷ option_key_username ∷ []) key
    then ok (record c { user_id = value })
    else if one_of (option_key_user_agent ∷ []) key
    then ok (record c { user_agent = value })
    else if one_of (option_key_session_id ∷ []) key
    then ok (record c { session_id = value })
    else if one_of (option_key_tls_enabled ∷ []) key
    then tls_option c value (parse_bool value)
    else apply_other_option c key value

abbrev pub stop_or_go :
    Config → Go Config → (Config → Config × Option GoError) → Config × Option GoError
stop_or_go c (err e) onward = (c, some e)
stop_or_go c (ok c') onward = onward c'

-- The loop: the object that `cfg` points to as it is left, also by an early return.
unfoldable pub apply_options : Config → Headers → Config × Option GoError
unfolding apply_option
apply_options c [] = (c, none)
apply_options c ((k, v) ∷ opts) = stop_or_go c (apply_option c k v) (λ c'. apply_options c' opts)

pub record Database : Type 0 where
  pub store : List Config
  pub cfg : Option ℕ

-- `&database{alloc: d.alloc}`
abbrev pub new_database : Database
new_database = record { store = []; cfg = none }

-- *p = c
abbrev pub write : List Config → ℕ → Config → List Config
write [] a c = []
write (x ∷ xs) zero c = c ∷ xs
write (x ∷ xs) (suc a) c = x ∷ write xs a c

abbrev pub value_or_empty : Option Text → Text
value_or_empty none = []
value_or_empty (some v) = v

-- firstNonEmpty(opts[OptionKeyURI], opts["adbc.spark.uri"])
unfoldable pub uri_of : Headers → Text
unfolding lookup
uri_of opts =
    let uri = value_or_empty (lookup option_key_uri opts) in
    if is_nil uri then value_or_empty (lookup (codes "adbc.spark.uri") opts) else uri

-- The end of `SetOptions` on the new object `parsed`; an early return leaves `d.cfg` alone.
abbrev pub keep_fresh : Database → Config × Option GoError → Database × Option GoError
keep_fresh d (c, none) = (record { store = d.store ++ c ∷ []; cfg = some (length d.store) }, none)
keep_fresh d (c, some e) = (record d { store = d.store ++ c ∷ [] }, some e)

-- The end of `SetOptions` on the object at `a`.
abbrev pub keep_in_place : Database → ℕ → Config × Option GoError → Database × Option GoError
keep_in_place d a (c, e) = (record d { store = write d.store a c }, e)

abbrev pub set_parsed : Database → Headers → Go Config → Database × Option GoError
set_parsed d opts (err e) = (d, some (adbc_error (text_of e) Status.invalid_argument))
set_parsed d opts (ok parsed) = keep_fresh d (apply_options parsed opts)

abbrev pub uri_required : GoError
uri_required =
    adbc_error
      (plain
        (codes "spark: a connection URI is required (set the \"uri\" option to an sc:// string)"))
      Status.invalid_argument

-- Without a URI: the object in use is changed. An address outside the store cannot occur.
abbrev pub set_current : Database → Headers → Option ℕ → Database × Option GoError
set_current d opts none = (d, some uri_required)
set_current d opts (some a) = elim (get_elem? d.store a) [
  | none ↦ (d, none)
  | some c ↦ keep_in_place d a (apply_options c opts)
]

unfoldable pub set_options : Unicode → Database → Headers → Database × Option GoError
unfolding uri_of parse_connection_string apply_options
set_options u d opts =
    let uri = uri_of opts in
    if is_nil uri
    then set_current d opts d.cfg
    else set_parsed d opts (parse_connection_string u uri)

-- `NewDatabase` of driver.go
abbrev pub created : Database × Option GoError → Go Database
created (d, none) = ok d
created (d, some e) = err e

unfoldable pub new_database_with : Unicode → Headers → Go Database
unfolding set_options
new_database_with u opts = created (set_options u new_database opts)

-- A connection: the address of its configuration, and its client, which `Close` sets to nil.
pub record Connection : Type 0 where
  pub cfg : ℕ
  pub client : Option Client

-- The outcome of grpc.NewClient: an error, or none.
abbrev pub dialled : ℕ → Config → Text → Option Message → Go Connection
dialled a c uuid none = ok (record { cfg = a; client = some (dial c uuid) })
dialled a c uuid (some m) = err (adbc_error (wrap (codes "spark connect: dial %s: %w") m) Status.io)

-- `Open`. `dial_error` is what grpc.NewClient says of an endpoint.
unfoldable pub open_connection : (Text → Option Message) → Text → Database → Go Connection
unfolding endpoint
open_connection dial_error uuid d = elim d.cfg [
  | none ↦ err (
      adbc_error (plain (codes "spark: database is not configured; set the \"uri\" option first"))
        Status.invalid_state)
  | some a ↦ elim (get_elem? d.store a) [
    | none ↦ err (
        adbc_error (plain (codes "spark: database is not configured; set the \"uri\" option first"))
          Status.invalid_state)
    | some c ↦ dialled a c uuid (dial_error (endpoint c))
  ]
]
