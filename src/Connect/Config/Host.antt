-- ===== src/Connect/Config/Host.antt =====
-- `splitHostPort` and `Endpoint`.
use adbc_driver_spark.Base.{false, ◌≡◌, ◌≢◌, refl, some, [], ◌∷◌, ◌++◌, arith, ok, All}
use adbc_driver_spark.Base.Int.{ℤ, IsInt64}
use adbc_driver_spark.Base.Text.{Text, codes, has_prefix}
use adbc_driver_spark.Connect.Config.{
  Config, split_host_port, endpoint, decimal, set_endpoint, atoi,
}
use adbc_driver_spark.Connect.Config.Decimal.{
  IsCons, IsNumeral, atoi-decimal, decimal-IsNumeral, decimal-IsCons,
}
use adbc_driver_spark.Connect.Config.Split.{Avoids, cut-append, cut_last-append}

-- The host does not look like an IPv6 literal in brackets.
abbrev pub StartsBare : Text → Type 0
StartsBare [] = Unit
StartsBare (c ∷ _) = c ≢ b'['

has_prefix_bracket : (s : Text) → StartsBare s → has_prefix (codes "[") s ≡ false
unfolding has_prefix
has_prefix_bracket [] h = refl
has_prefix_bracket (c ∷ s) h = ground arith

StartsBare-append : (h p : Text) → StartsBare h → StartsBare (h ++ b':' ∷ p)
StartsBare-append [] p b = omega arith
StartsBare-append (c ∷ h) p b = b

-- Without brackets the port begins behind the last ':', so that a host may hold further colons.
pub split_host_port_bare :
    (h p : Text) → StartsBare h → Avoids b':' p → split_host_port (h ++ b':' ∷ p) ≡ some (h, p)
unfolding split_host_port
split_host_port_bare h p b a =
    rw (has_prefix_bracket (h ++ b':' ∷ p) (StartsBare-append h p b))
      (rw (cut_last-append b':' h p a, split_host_port))

-- With brackets the host is what they enclose, and they are dropped.
pub split_host_port_bracketed :
    (h p : Text)
    → Avoids b']' h
    → (split_host_port (b'[' ∷ (h ++ b']' ∷ b':' ∷ p)) ≡ some (h, p))
      × (split_host_port (b'[' ∷ (h ++ b']' ∷ [])) ≡ some (h, []))
unfolding split_host_port has_prefix
split_host_port_bracketed h p a = (
  rw (cut-append b']' [] (b'[' ∷ h) (b':' ∷ p) (omega arith, a), split_host_port),
  rw (cut-append b']' [] (b'[' ∷ h) [] (omega arith, a), split_host_port),
)

decimal-Avoids : (s : Text) → All IsNumeral s → Avoids b':' s
decimal-Avoids [] h = tt
decimal-Avoids (c ∷ s) h = (h.0.0, decimal-Avoids s h.1)

-- The endpoint of a configuration splits into its host and its port in decimal, colons in the host
-- or not, if the host does not begin with a bracket.
pub split_host_port-endpoint :
    (c : Config) → StartsBare c.host → split_host_port (endpoint c) ≡ some (c.host, decimal c.port)
unfolding endpoint
split_host_port-endpoint c b =
    split_host_port_bare c.host (decimal c.port) b
      (decimal-Avoids (decimal c.port) (decimal-IsNumeral c.port))

set_endpoint_port :
    (c : Config) (s h p : Text) (z : ℤ)
    → split_host_port s ≡ some (h, p)
    → IsCons p
    → atoi p ≡ some z
    → set_endpoint c s ≡ ok (record c { host = h; port = z })
unfolding set_endpoint
set_endpoint_port c s h [] z e i a = absurd i
set_endpoint_port c s h (d ∷ p) z e i a = rw (e, set_endpoint) (rw (a, set_endpoint))

-- Reading back the endpoint of a configuration restores its host and its 64-bit port, whatever the
-- configuration that it is read into.
pub set_endpoint-endpoint :
    (c d : Config)
    → StartsBare c.host
    → IsInt64 c.port
    → set_endpoint d (endpoint c) ≡ ok (record d { host = c.host; port = c.port })
set_endpoint-endpoint c d b i =
    set_endpoint_port d (endpoint c) c.host (decimal c.port) c.port (split_host_port-endpoint c b)
      (decimal-IsCons c.port) (atoi-decimal c.port i)
