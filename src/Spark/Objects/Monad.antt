-- ===== src/Spark/Objects/Monad.antt =====
-- Methods that use the connection's client: they may panic (`none`), and return the client as they
-- leave it with a value or an error.
use adbc_driver_spark.Base.{Option, none, some, List, [], ◌∷◌, ok, err}
use adbc_driver_spark.Adbc.{GoError, Go}
use adbc_driver_spark.Arrow.{Batch}
use adbc_driver_spark.Connect.Client.{Service, Client, ResultReader, read_all, error_or}

abbrev pub M : Type 0 → Type 0
M A = Client → Option (Client × Go A)

abbrev pub pure : {A : Type 0} → A → M A
pure a c = some (c, ok a)

unfoldable pub then' : {A B : Type 0} → Option (Client × Go A) → (A → M B) → Option (Client × Go B)
then' none f = none
then' (some (c, err e)) f = some (c, err e)
then' (some (c, ok a)) f = f a c

infixl 5 ◌>>=◌
abbrev pub ◌>>=◌ : {A B : Type 0} → M A → (A → M B) → M B
◌>>=◌ m f c = then' (m c) f

-- A call of the client.
abbrev pub run : {A : Type 0} → (Client → Client × Go A) → M A
run f c = some (f c)

abbrev pub attempted : {A : Type 0} → Option (Client × Go A) → Option (Client × Go (Go A))
attempted none = none
attempted (some (c, r)) = some (c, ok r)

-- The error as a value, for code that goes on after it.
abbrev pub attempt : {A : Type 0} → M A → M (Go A)
attempt m c = attempted (m c)

-- A loop that appends a row for each element, up to the first error.
abbrev pub for_each : {A B : Type 0} → List A → (A → M B) → M (List B)
for_each [] f = pure []
for_each (x ∷ xs) f = do y ← f x; ys ← for_each xs f; pure (y ∷ ys)

-- The client with the session that the last reader has remembered.
abbrev pub with_session : Client → ResultReader → Client
with_session c r = record c { server_session_id = r.server_session }

-- The loop over a reader: its records, or its error at the end.
abbrev pub read_to_end : Service → ResultReader → M (List Batch)
read_to_end svc r c =
    let (batches, last) = read_all svc.decode r in
    some (with_session c last, error_or last.error batches)

abbrev pub finish : {A : Type 0} → Client → Option GoError → Option A → Option (Client × Go A)
finish c e none = none
finish c e (some a) = some (c, error_or e a)

-- The same with a body that may panic.
abbrev pub consume : {A : Type 0} → Service → ResultReader → (List Batch → Option A) → M A
consume svc r body c =
    let (batches, last) = read_all svc.decode r in
    finish (with_session c last) last.error (body batches)
