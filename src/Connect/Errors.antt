-- ===== src/Connect/Errors.antt =====
-- internal/sparkconnect/errors.go: `wrapGRPC` and `grpcToADBC`.
use adbc_driver_spark.Base.{ℕ, ◌≡◌, ◌↔◌, ◌⊎◌, refl, Option, none, some, arith, ◌==◌, if◌then◌else◌}
use adbc_driver_spark.Adbc.{Status, Message, GoError, adbc, adbc_error}

-- The constants of the package `codes`, numbered by the gRPC protocol.
abbrev pub grpc_ok : ℕ
grpc_ok = 0

abbrev pub canceled : ℕ
canceled = 1

abbrev pub invalid_argument : ℕ
invalid_argument = 3

abbrev pub deadline_exceeded : ℕ
deadline_exceeded = 4

abbrev pub not_found : ℕ
not_found = 5

abbrev pub already_exists : ℕ
already_exists = 6

abbrev pub permission_denied : ℕ
permission_denied = 7

abbrev pub unimplemented : ℕ
unimplemented = 12

abbrev pub unavailable : ℕ
unavailable = 14

abbrev pub unauthenticated : ℕ
unauthenticated = 16

-- An error of the gRPC library: `status.FromError` finds a status in it, or not. The code is one of
-- the protocol's, far below 2 ^ 31, so that the conversion to int32 leaves it as it is; codes above that
-- are not modelled.
pub data GrpcError : Type 0 where
  status : ℕ → Message → GrpcError
  foreign : Message → GrpcError

unfoldable pub grpc_to_adbc : ℕ → Status
grpc_to_adbc code =
    if code == grpc_ok
    then Status.ok
    else if code == canceled
    then Status.cancelled
    else if code == invalid_argument
    then Status.invalid_argument
    else if code == deadline_exceeded
    then Status.timeout
    else if code == not_found
    then Status.not_found
    else if code == already_exists
    then Status.already_exists
    else if code == unauthenticated
    then Status.unauthenticated
    else if code == permission_denied
    then Status.unauthorized
    else if code == unimplemented
    then Status.not_implemented
    else if code == unavailable
    then Status.io
    else Status.internal

-- `none` is the nil error.
unfoldable pub wrap_grpc : Option GrpcError → Option GoError
unfolding grpc_to_adbc
wrap_grpc none = none
wrap_grpc (some (foreign m)) = some (adbc_error m Status.internal)
wrap_grpc (some (status code m)) =
    some (adbc (record { msg = m; code = grpc_to_adbc code; vendor_code = code }))

-- The same on an error that is there.
unfoldable pub wrapped : GrpcError → GoError
unfolding grpc_to_adbc
wrapped (foreign m) = adbc_error m Status.internal
wrapped (status code m) = adbc (record { msg = m; code = grpc_to_adbc code; vendor_code = code })

pub wrap_grpc-some : (e : GrpcError) → wrap_grpc (some e) ≡ some (wrapped e)
unfolding wrap_grpc wrapped
wrap_grpc-some (status code m) = refl
wrap_grpc-some (foreign m) = refl

-- An error never turns into no error: nil comes from nil alone.
pub wrap_grpc-eq-none : (e : Option GrpcError) → (wrap_grpc e ≡ none) ↔ (e ≡ none)
unfolding wrap_grpc
wrap_grpc-eq-none none = ground arith
wrap_grpc-eq-none (some (status code m)) = ground arith
wrap_grpc-eq-none (some (foreign m)) = ground arith

-- Two gRPC codes with one ADBC status are equal, or both have the status `internal`.
pub grpc_to_adbc_inj :
    (a b : ℕ)
    → grpc_to_adbc a ≡ grpc_to_adbc b
    → (a ≡ b) ⊎ ((grpc_to_adbc a ≡ Status.internal) × (grpc_to_adbc b ≡ Status.internal))
unfolding grpc_to_adbc
grpc_to_adbc_inj a b h = ground arith
