-- ===== src/Connect/Config.antt =====
-- internal/sparkconnect/config.go: `Config`, `ParseConnectionString`, `applyParam`, `splitHostPort`
-- and `Endpoint`. Texts are lists of bytes. The two slices around an index are the results of `cut`.
pub mod Decimal
pub mod Escape
pub mod Split
pub mod Host
pub mod Parse
use adbc_driver_spark.Base.{
  ℕ, zero, suc, ◌+◌, ◌-◌, ◌*◌, ◌/◌, ◌%◌, Bool, true, false, not, ◌&&◌, ◌||◌, Option, none, some,
  List, [], ◌∷◌, ◌++◌, ok, err, ◌>>=◌, ltb, leb, ◌==◌, if◌then◌else◌, drop, is_nil,
}
use adbc_driver_spark.Base.Text.{
  Text, Unicode, codes, text_eq, one_of, cut, cut_last, has_prefix, trim_suffix, split, to_lower,
  trim_space,
}
use adbc_driver_spark.Base.Int.{ℤ, pos, negsuc, neg_ℕ, two63}
use adbc_driver_spark.Adbc.{Message, plain, format, other, Go}

-- map[string]string: a key stands once.
abbrev pub Headers : Type 0
Headers = List (Text × Text)

-- headers[key] = value
unfoldable pub insert : Text → Text → Headers → Headers
insert k v [] = (k, v) ∷ []
insert k v ((j, w) ∷ m) =
    let rest = insert k v m in if text_eq j k then (k, v) ∷ m else (j, w) ∷ rest

unfoldable pub lookup : Text → Headers → Option Text
lookup k [] = none
lookup k ((j, w) ∷ m) = let rest = lookup k m in if text_eq j k then some w else rest

pub record Config : Type 0 where
  pub host : Text
  pub port : ℤ
  pub use_tls : Bool
  pub token : Text
  pub user_id : Text
  pub user_agent : Text
  pub session_id : Text
  pub headers : Headers

abbrev pub default_port : ℤ
default_port = pos 15002

abbrev pub default_user_agent : Text
default_user_agent = codes "adbc-driver-spark"

abbrev pub initial : Config
initial = record {
  host = [];
  port = default_port;
  use_tls = false;
  token = [];
  user_id = [];
  user_agent = default_user_agent;
  session_id = [];
  headers = [];
}

abbrev pub is_digit : ℕ → Bool
is_digit c = leb b'0' c && leb c b'9'

-- The digits behind `acc`, in base 10.
unfoldable pub digits_value : ℕ → Text → Option ℕ
digits_value acc [] = some acc
digits_value acc (c ∷ s) =
    let rest = digits_value (acc * 10 + (c - b'0')) s in if is_digit c then rest else none

unfoldable pub unsigned : Text → Option ℕ
unfolding digits_value
unsigned [] = none
unsigned (c ∷ s) = digits_value 0 (c ∷ s)

abbrev pub in_range : Bool → Option ℕ → Option ℤ
in_range minus none = none
in_range true (some n) = if leb n two63 then some (neg_ℕ n) else none
in_range false (some n) = if ltb n two63 then some (pos n) else none

-- strconv.Atoi on a 64-bit int: an optional sign, digits, and a range check.
unfoldable pub atoi : Text → Option ℤ
unfolding unsigned
atoi [] = none
atoi (c ∷ s) =
    if c == b'-'
    then in_range true (unsigned s)
    else if c == b'+'
    then in_range false (unsigned s)
    else in_range false (unsigned (c ∷ s))

-- strconv.ParseBool
unfoldable pub parse_bool : Text → Option Bool
unfolding one_of text_eq
parse_bool s =
    if one_of (codes "1" ∷ codes "t" ∷ codes "T" ∷ codes "TRUE" ∷ codes "true" ∷ codes "True" ∷ [])
      s
    then some true
    else if one_of
        (codes "0" ∷ codes "f" ∷ codes "F" ∷ codes "FALSE" ∷ codes "false" ∷ codes "False" ∷ []) s
    then some false
    else none

-- The value of a hexadecimal digit.
unfoldable pub hex_value : ℕ → Option ℕ
hex_value c =
    if is_digit c
    then some (c - b'0')
    else if leb b'a' c && leb c b'f'
    then some (c - b'a' + 10)
    else if leb b'A' c && leb c b'F'
    then some (c - b'A' + 10)
    else none

abbrev pub cons? : Option ℕ → Option Text → Option Text
cons? none t = none
cons? (some b) none = none
cons? (some b) (some t) = some (b ∷ t)

abbrev pub hex_pair : Option ℕ → Option ℕ → Option ℕ
hex_pair none l = none
hex_pair (some h) none = none
hex_pair (some h) (some l) = some (h * 16 + l)

-- url.PathUnescape: "%XX" is a byte, all else stands for itself; `none` is its error.
unfoldable pub path_unescape : Text → Option Text
unfolding hex_value
path_unescape [] = some []
path_unescape (c ∷ []) = if c == b'%' then none else some (c ∷ [])
path_unescape (c ∷ a ∷ []) =
    let rest = path_unescape (a ∷ []) in if c == b'%' then none else cons? (some c) rest
path_unescape (c ∷ a ∷ b ∷ s) =
    let coded = cons? (hex_pair (hex_value a) (hex_value b)) (path_unescape s) in
    let onward = cons? (some c) (path_unescape (a ∷ b ∷ s)) in if c == b'%' then coded else onward

abbrev pub go_error : Message → Go Config
go_error m = err (other m)

abbrev pub set_tls : Config → Text → Option Bool → Go Config
set_tls c key none =
    go_error (format (codes "spark connect: invalid boolean for %q: %w") (key ∷ []))
set_tls c key (some b) = ok (record c { use_tls = b })

unfoldable pub apply_param : Config → Text → Text → Go Config
unfolding one_of text_eq parse_bool insert
apply_param c key value =
    if one_of (codes "user_id" ∷ codes "userid" ∷ codes "user" ∷ []) key
    then ok (record c { user_id = value })
    else if one_of (codes "token" ∷ []) key
    then ok (record c { token = value })
    else if one_of (codes "user_agent" ∷ codes "useragent" ∷ []) key
    then ok (record c { user_agent = value })
    else if one_of (codes "session_id" ∷ codes "sessionid" ∷ []) key
    then ok (record c { session_id = value })
    else if one_of
        (codes "use_ssl" ∷ codes "usessl" ∷ codes "use_tls" ∷ codes "usetls" ∷ codes "ssl" ∷ []) key
    then set_tls c key (parse_bool value)
    else ok (record c { headers = insert key value c.headers })

-- The text behind a closing bracket: a port behind ':', anything else is dropped.
abbrev pub bracket_port : Text → Text
bracket_port [] = []
bracket_port (c ∷ s) = if c == b':' then s else []

-- Host and port; `none` is `ok` false.
unfoldable pub split_host_port : Text → Option (Text × Text)
unfolding has_prefix cut cut_last
split_host_port s =
    if has_prefix (codes "[") s
    then (elim (cut (codes "]") s) [ none ↦ none | some (a, b) ↦ some (drop 1 a, bracket_port b) ])
    else elim (cut_last b':' s) [ none ↦ some (s, []) | some (a, b) ↦ some (a, b) ]

-- The scheme in lower case, and the rest.
unfoldable pub split_scheme : Unicode → Text → Text × Text
unfolding cut to_lower
split_scheme u conn = elim (cut (codes "://") conn) [
  | none ↦ ([], conn)
  | some (a, b) ↦ (to_lower u a, b)
]

-- The `switch` on the scheme: whether it asks for TLS; `none` is its default.
unfoldable pub scheme_tls : Text → Option Bool
unfolding one_of text_eq
scheme_tls scheme =
    if one_of ([] ∷ codes "sc" ∷ codes "grpc" ∷ []) scheme
    then some false
    else if one_of (codes "grpcs" ∷ codes "sc+tls" ∷ []) scheme
    then some true
    else none

-- host[:port] and the parameter list
unfoldable pub split_params : Text → Text × Text
unfolding cut
split_params rest = elim (cut (codes "/;") rest) [
  | some (a, b) ↦ (a, b)
  | none ↦ elim (cut (codes ";") rest) [
    | some (a, b) ↦ (a, b)
    | none ↦ elim (cut (codes "/") rest) [ some (a, b) ↦ (a, []) | none ↦ (rest, []) ]
  ]
]

abbrev pub set_port : Config → Text → Option ℤ → Go Config
set_port c port none = go_error (format (codes "spark connect: invalid port %q: %w") (port ∷ []))
set_port c port (some p) = ok (record c { port = p })

-- The host and the port of the configuration.
unfoldable pub set_endpoint : Config → Text → Go Config
unfolding split_host_port atoi
set_endpoint c host_port = elim (split_host_port host_port) [
  | none ↦ ok (record c { host = host_port })
  | some (host, port) ↦
      let with_host = record c { host = host } in
      if is_nil port then ok with_host else set_port with_host port (atoi port)
]

abbrev pub get_or : Option Text → Text → Text
get_or none d = d
get_or (some t) d = t

-- One round of the loop over the parameters.
unfoldable pub apply_kv : Unicode → Config → Text → Go Config
unfolding cut path_unescape apply_param to_lower trim_space
apply_kv u c kv = if is_nil kv then ok c else elim (cut (codes "=") kv) [
  | none ↦ go_error (format (codes "spark connect: malformed parameter %q") (kv ∷ []))
  | some (key, value) ↦
      apply_param c (to_lower u (trim_space u key)) (get_or (path_unescape value) value)
]

unfoldable pub apply_params : Unicode → Config → List Text → Go Config
unfolding apply_kv
apply_params u c [] = ok c
apply_params u c (kv ∷ kvs) = apply_kv u c kv >>= λ c'. apply_params u c' kvs

-- Everything behind the scheme.
unfoldable pub parse_rest : Unicode → Text → Config → Text → Go Config
unfolding split_params trim_suffix set_endpoint apply_params split
parse_rest u conn c rest =
    let (before_params, params) = split_params rest in
    let host_port = trim_suffix b'/' before_params in
    if is_nil host_port
    then go_error (format (codes "spark connect: missing host in connection string %q") (conn ∷ []))
    else set_endpoint c host_port >>= λ c'.
        if is_nil params then ok c' else apply_params u c' (split b';' params)

-- The `switch` on the scheme, and what follows it.
unfoldable pub parse_scheme : Unicode → Text → Text × Text → Go Config
unfolding scheme_tls parse_rest
parse_scheme u conn (scheme, rest) = elim (scheme_tls scheme) [
  | none ↦ go_error (format (codes "spark connect: unsupported scheme %q") (scheme ∷ []))
  | some tls ↦ parse_rest u conn (record initial { use_tls = tls }) rest
]

unfoldable pub parse_connection_string : Unicode → Text → Go Config
unfolding split_scheme parse_scheme
parse_connection_string u conn =
    if is_nil conn
    then go_error (plain (codes "spark connect: empty connection string"))
    else parse_scheme u conn (split_scheme u conn)

-- The decimal digits of a number in front of `acc`; the fuel is more than the number.
unfoldable pub digits_onto : ℕ → ℕ → Text → Text
digits_onto zero n acc = acc
digits_onto (suc f) n acc =
    let rest = digits_onto f (n / 10) ((b'0' + n % 10) ∷ acc) in
    if ltb n 10 then (b'0' + n) ∷ acc else rest

-- "%d"
unfoldable pub decimal : ℤ → Text
unfolding digits_onto
decimal (pos n) = digits_onto (suc n) n []
decimal (negsuc n) = b'-' ∷ digits_onto (suc (suc n)) (suc n) []

unfoldable pub endpoint : Config → Text
unfolding decimal
endpoint c = c.host ++ (b':' ∷ decimal c.port)
