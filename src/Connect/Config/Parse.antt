-- ===== src/Connect/Config/Parse.antt =====
-- `ParseConnectionString` on the documented form sc://host:port/;key=value;…
use adbc_driver_spark.Base.{
  ℕ, Bool, false, ◌≡◌, ◌≢◌, refl, ap, ◌∙◌, some, List, [], ◌∷◌, ◌++◌, map, arith, fun_ext, ok,
  ◌>>=◌, if◌then◌else◌, All, All-append, is_nil,
}
use adbc_driver_spark.Base.Int.{IsInt64}
use adbc_driver_spark.Base.Text.{Text, Unicode, split, to_lower}
use adbc_driver_spark.Adbc.{Go}
use adbc_driver_spark.Connect.Config.{
  Config, initial, endpoint, decimal, apply_param, apply_kv, apply_params, split_params,
  split_scheme, scheme_tls, parse_rest, parse_scheme, parse_connection_string,
}
use adbc_driver_spark.Connect.Config.Decimal.{IsNumeral, decimal-IsNumeral}
use adbc_driver_spark.Connect.Config.Escape.{
  IsBytes, percent_encode, path_unescape-percent_encode, percent_encode-avoids,
}
use adbc_driver_spark.Connect.Config.Host.{StartsBare, set_endpoint-endpoint}
use adbc_driver_spark.Connect.Config.Split.{
  Avoids, cut-append, join, split-join, trim_suffix_absent, IsName, to_lower-trim_space,
  IsName-Avoids,
}

-- key=value with the value percent-encoded
abbrev pub kv_text : (ℕ → Bool) → Text × Text → Text
kv_text bare (k, v) = k ++ b'=' ∷ percent_encode bare v

-- Apply the parameters one after another.
abbrev pub apply_all : Config → List (Text × Text) → Go Config
apply_all c [] = ok c
apply_all c ((k, v) ∷ kvs) = apply_param c k v >>= λ c'. apply_all c' kvs

abbrev pub IsParam : Text × Text → Type 0
IsParam (k, v) = IsName k × IsBytes v

-- The encoder leaves neither '%' nor ';' as it is.
abbrev pub Encodes : (ℕ → Bool) → Type 0
Encodes bare = (bare b'%' ≡ false) × (bare b';' ≡ false)

is_nil-append : (a : Text) (x : ℕ) (b : Text) → is_nil (a ++ x ∷ b) ≡ false
is_nil-append [] x b = refl
is_nil-append (_ ∷ a) x b = refl

apply_kv-kv_text :
    (u : Unicode) (bare : ℕ → Bool) (c : Config) (k v : Text)
    → Encodes bare
    → IsParam (k, v)
    → apply_kv u c (kv_text bare (k, v)) ≡ apply_param c k v
unfolding apply_kv
apply_kv-kv_text u bare c k v e (name, bytes) = rw (is_nil-append k b'=' (percent_encode bare v)) (
    rw (cut-append b'=' [] k (percent_encode bare v) (IsName-Avoids k name).0, apply_kv)
      (rw (to_lower-trim_space u k name) (rw (path_unescape-percent_encode bare v e.0 bytes))))

apply_params-map :
    (u : Unicode) (bare : ℕ → Bool) (c : Config) (kvs : List (Text × Text))
    → Encodes bare
    → All IsParam kvs
    → apply_params u c (map (kv_text bare) kvs) ≡ apply_all c kvs
unfolding apply_params
apply_params-map u bare c [] e h = refl
apply_params-map u bare c ((k, v) ∷ kvs) e h =
    rw (apply_kv-kv_text u bare c k v e h.0)
      (ap (λ f. apply_param c k v >>= f) (fun_ext (λ c'. apply_params-map u bare c' kvs e h.1)))

-- The parameter list of a connection string.
abbrev pub params_text : (ℕ → Bool) → List (Text × Text) → Text
params_text bare [] = []
params_text bare (kv ∷ kvs) = join b';' (kv_text bare kv) (map (kv_text bare) kvs)

kv_text-Avoids :
    (bare : ℕ → Bool) (kv : Text × Text) → Encodes bare → IsParam kv → Avoids b';' (kv_text bare kv)
kv_text-Avoids bare (k, v) e (name, bytes) =
    All-append (λ c. c ≢ b';') k (b'=' ∷ percent_encode bare v) (IsName-Avoids k name).1
      (omega arith, percent_encode-avoids bare v e.1 bytes)

kv_texts-Avoid :
    (bare : ℕ → Bool) (kvs : List (Text × Text))
    → Encodes bare
    → All IsParam kvs
    → All (Avoids b';') (map (kv_text bare) kvs)
kv_texts-Avoid bare [] e h = tt
kv_texts-Avoid bare (kv ∷ kvs) e h = (kv_text-Avoids bare kv e h.0, kv_texts-Avoid bare kvs e h.1)

is_nil-join : (t : Text) (ss : List Text) → is_nil t ≡ false → is_nil (join b';' t ss) ≡ false
is_nil-join t [] h = h
is_nil-join t (s ∷ ss) h = is_nil-append t b';' (join b';' s ss)

apply-params_text :
    (u : Unicode) (bare : ℕ → Bool) (c : Config) (kvs : List (Text × Text))
    → Encodes bare
    → All IsParam kvs
    → (if is_nil (params_text bare kvs)
        then ok c
        else apply_params u c (split b';' (params_text bare kvs)))
      ≡ apply_all c kvs
apply-params_text u bare c [] e h = refl
apply-params_text u bare c ((k, v) ∷ kvs) e h =
    let kv = kv_text bare (k, v) in
    rw (is_nil-join kv (map (kv_text bare) kvs) (is_nil-append k b'=' (percent_encode bare v))) (
      rw
        (split-join b';' kv (map (kv_text bare) kvs) (kv_text-Avoids bare (k, v) e h.0)
          (kv_texts-Avoid bare kvs e h.1))
        (apply_params-map u bare c ((k, v) ∷ kvs) e h))

-- A host that cannot be taken for anything else.
abbrev pub IsHost : Text → Type 0
IsHost h = StartsBare h × Avoids b'/' h

decimal-Avoids_slash : (s : Text) → All IsNumeral s → Avoids b'/' s
decimal-Avoids_slash [] h = tt
decimal-Avoids_slash (c ∷ s) h = (h.0.2, decimal-Avoids_slash s h.1)

endpoint-Avoids : (c : Config) → IsHost c.host → Avoids b'/' (endpoint c)
unfolding endpoint
endpoint-Avoids c h =
    All-append (λ x. x ≢ b'/') c.host (b':' ∷ decimal c.port) h.1
      (omega arith, decimal-Avoids_slash (decimal c.port) (decimal-IsNumeral c.port))

is_nil-endpoint : (c : Config) → is_nil (endpoint c) ≡ false
unfolding endpoint
is_nil-endpoint c = is_nil-append c.host b':' (decimal c.port)

split_params_slash : (a p : Text) → Avoids b'/' a → split_params (a ++ b'/' ∷ b';' ∷ p) ≡ (a, p)
unfolding split_params
split_params_slash a p h = rw (cut-append b'/' (b';' ∷ []) a p h, split_params)

parse_rest-endpoint :
    (u : Unicode) (bare : ℕ → Bool) (conn : Text) (d c : Config) (kvs : List (Text × Text))
    → Encodes bare
    → All IsParam kvs
    → IsHost c.host
    → IsInt64 c.port
    → parse_rest u conn d (endpoint c ++ b'/' ∷ b';' ∷ params_text bare kvs)
      ≡ apply_all (record d { host = c.host; port = c.port }) kvs
unfolding parse_rest
parse_rest-endpoint u bare conn d c kvs e h b i =
    rw (split_params_slash (endpoint c) (params_text bare kvs) (endpoint-Avoids c b), parse_rest)
      (rw (trim_suffix_absent b'/' (endpoint c) (endpoint-Avoids c b)) (
        rw (is_nil-endpoint c) (
          rw (set_endpoint-endpoint c d b.0 i)
            (apply-params_text u bare (record d { host = c.host; port = c.port }) kvs e h))))

-- scheme://host:port/;key=value;…
abbrev pub connection_text : Text → Config → (ℕ → Bool) → List (Text × Text) → Text
connection_text scheme c bare kvs =
    scheme ++ b':' ∷ b'/' ∷ b'/' ∷ (endpoint c ++ b'/' ∷ b';' ∷ params_text bare kvs)

split_scheme-append :
    (u : Unicode) (scheme rest : Text)
    → Avoids b':' scheme
    → split_scheme u (scheme ++ b':' ∷ b'/' ∷ b'/' ∷ rest) ≡ (to_lower u scheme, rest)
unfolding split_scheme
split_scheme-append u scheme rest h =
    rw (cut-append b':' (b'/' ∷ b'/' ∷ []) scheme rest h, split_scheme)

parse_scheme-some :
    (u : Unicode) (conn scheme rest : Text) {tls : Bool}
    → scheme_tls scheme ≡ some tls
    → parse_scheme u conn (scheme, rest) ≡ parse_rest u conn (record initial { use_tls = tls }) rest
unfolding parse_scheme
parse_scheme-some u conn scheme rest t = rw (t, parse_scheme)

-- Parsing scheme://host:port/;key=value;… with percent-encoded values gives the defaults with that
-- host, that 64-bit port and the scheme's TLS setting, and then applies the parameters in order with
-- their decoded values. The scheme is one of those accepted, the host has no '/' and does not begin
-- with '[', the names are lower-case ASCII without '=', ';' and blanks, and the values are any bytes.
pub parse_connection_string-connection_text :
    (u : Unicode) (bare : ℕ → Bool) (scheme : Text) (tls : Bool) (c : Config)
    (kvs : List (Text × Text))
    → Avoids b':' scheme
    → scheme_tls (to_lower u scheme) ≡ some tls
    → Encodes bare
    → All IsParam kvs
    → IsHost c.host
    → IsInt64 c.port
    → parse_connection_string u (connection_text scheme c bare kvs)
      ≡ apply_all (record initial { use_tls = tls; host = c.host; port = c.port }) kvs
unfolding parse_connection_string
parse_connection_string-connection_text u bare scheme tls c kvs a t e h b i =
    let rest = endpoint c ++ b'/' ∷ b';' ∷ params_text bare kvs in
    let conn = connection_text scheme c bare kvs in
    rw (is_nil-append scheme b':' (b'/' ∷ b'/' ∷ rest)) (
      ap (parse_scheme u conn) (split_scheme-append u scheme rest a)
      ∙ parse_scheme-some u conn (to_lower u scheme) rest t
      ∙ parse_rest-endpoint u bare conn (record initial { use_tls = tls }) c kvs e h b i)
