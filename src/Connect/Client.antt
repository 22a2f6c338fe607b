-- ===== src/Connect/Client.antt =====
-- internal/sparkconnect/client.go: `Client`. The gRPC service is the parameter `Service`: its answer
-- to a call may depend on all calls so far, which are kept newest first. The content of `*c.cfg` is
-- the argument `cfg`. Not modelled: TLS and dial options, the operation id (a fresh UUID that is never
-- read) and the five seconds that Close gives the server.
pub mod Same
pub mod Calls
pub mod Results
use adbc_driver_spark.Base.{
  ℕ, suc, Bool, true, false, Option, none, some, List, [], ◌∷◌, ◌++◌, Result, ok, err,
  if◌then◌else◌, is_nil, length,
}
use adbc_driver_spark.Base.Text.{Text, codes, text_eq}
use adbc_driver_spark.Adbc.{Message, GoError, Go, other}
use adbc_driver_spark.Arrow.{Schema, Batch}
use adbc_driver_spark.Spark.Params.{Literal}
use adbc_driver_spark.Connect.Errors.{GrpcError, wrapped}
use adbc_driver_spark.Connect.Config.{Config, Headers}
use adbc_driver_spark.Connect.Reader.{
  Stream, Ipc, Reader, remember, new_result_reader, drain, release,
}
use adbc_driver_spark.Connect.Reader.Delivery.{pending}

-- What a request asks for.
pub data Operation : Type 0 where
  execute_sql : Text → List Literal → Operation
  set_conf : Text → Text → Operation
  get_conf : Text → Operation
  spark_version : Operation
  interrupt_all : Operation
  release_session : Operation

-- A request with its context. `metadata` is the sequence of Set calls on the outgoing metadata.
pub record Call : Type 0 where
  pub session_id : Text
  pub user_context : Option Text
  pub client_type : Text
  pub metadata : Headers
  pub operation : Operation

pub record ConfigReply : Type 0 where
  pub server_session : Text
  pub pairs : List (Text × Text)

pub record VersionReply : Type 0 where
  pub server_session : Text
  pub version : Text

-- The service and the channel, at the calls so far, the present one first; and Arrow's IPC decoder.
pub record Service : Type 0 where
  pub execute : List Call → Result GrpcError Stream
  pub config : List Call → Result GrpcError ConfigReply
  pub analyze : List Call → Result GrpcError VersionReply
  pub interrupt : List Call → Option GrpcError
  pub close_channel : List Call → Option Message
  pub decode : Text → Ipc Schema Batch

pub record Client : Type 0 where
  pub session_id : Text
  pub server_session_id : Text
  pub closed : Bool
  pub calls : List Call

-- The client of a successful `Dial`; `uuid` is the fresh UUID.
unfoldable pub dial : Config → Text → Client
dial cfg uuid = record {
  session_id = if is_nil cfg.session_id then uuid else cfg.session_id;
  server_session_id = [];
  closed = false;
  calls = [];
}

-- `outgoingContext`
unfoldable pub outgoing_metadata : Config → Headers
outgoing_metadata cfg =
    if is_nil cfg.token
    then cfg.headers
    else (codes "authorization", codes "Bearer " ++ cfg.token) ∷ cfg.headers

-- `userContext`
unfoldable pub user_context_of : Config → Option Text
user_context_of cfg = if is_nil cfg.user_id then none else some cfg.user_id

unfoldable pub call_of : Config → Client → Operation → Call
unfolding outgoing_metadata user_context_of
call_of cfg c op = record {
  session_id = c.session_id;
  user_context = user_context_of cfg;
  client_type = cfg.user_agent;
  metadata = outgoing_metadata cfg;
  operation = op;
}

-- The client once the request is sent.
unfoldable pub sent : Config → Client → Operation → Client
unfolding call_of
sent cfg c op = record c { calls = call_of cfg c op ∷ c.calls }

-- `rememberServerSession`
unfoldable pub remember_server_session : Client → Text → Client
unfolding remember
remember_server_session c id = record c { server_session_id = remember id c.server_session_id }

abbrev pub ResultReader : Type 0
ResultReader = Reader Schema Batch

-- The outcome of `newResultReader`, and the session that its first fill has remembered.
abbrev pub opened : Client → ResultReader × Option GoError → Client × Go ResultReader
opened c (r, none) = (record c { server_session_id = r.server_session }, ok r)
opened c (r, some e) = (record c { server_session_id = r.server_session }, err e)

abbrev pub open_stream : Service → Client → Result GrpcError Stream → Client × Go ResultReader
open_stream svc c (err e) = (c, err (wrapped e))
open_stream svc c (ok stream) =
    opened c (new_result_reader svc.decode [] stream c.server_session_id)

-- `ExecuteSQL` with `executePlan`
unfoldable pub execute : Service → Config → Client → Text → List Literal → Client × Go ResultReader
unfolding sent
execute svc cfg c query args =
    let c' = sent cfg c (execute_sql query args) in open_stream svc c' (svc.execute c'.calls)

-- A loop over all records of a reader: `drain` with enough fuel (`Reader.Delivery.Loops`).
unfoldable pub read_all : (Text → Ipc Schema Batch) → ResultReader → List Batch × ResultReader
unfolding drain
read_all decode r = elim (drain decode (suc (length (pending decode r).0)) r) [
  | none ↦ ([], r)
  | some (recs, last) ↦ (recs, last)
]

abbrev pub error_or {ℓ} : {A : Type ℓ} → Option GoError → A → Go A
error_or none a = ok a
error_or (some e) a = err e

-- The schema of a reader, `[]` standing for nil.
abbrev pub schema_or_nil : Option Schema → Schema
schema_or_nil none = []
schema_or_nil (some s) = s

unfoldable pub limit_zero : Text → Text
limit_zero query = codes "SELECT * FROM (" ++ (query ++ codes ") LIMIT 0")

-- What `SchemaOf` does with its reader, which is released at the end.
unfoldable pub schema_of_reader : Service → Client → Go ResultReader → Client × Go Schema
unfolding read_all
schema_of_reader svc c (err e) = (c, err e)
schema_of_reader svc c (ok r) =
    let last = (read_all svc.decode r).1 in
    (
      record c { server_session_id = last.server_session },
      error_or last.error (schema_or_nil r.schema),
    )

unfoldable pub schema_of : Service → Config → Client → Text → Client × Go Schema
unfolding execute limit_zero schema_of_reader
schema_of svc cfg c query =
    let (c', reader) = execute svc cfg c (limit_zero query) [] in schema_of_reader svc c' reader

abbrev pub config_reply : Client → Result GrpcError ConfigReply → Client × Go (Unit {0})
config_reply c (err e) = (c, err (wrapped e))
config_reply c (ok resp) = (remember_server_session c resp.server_session, ok tt)

unfoldable pub set_runtime_conf : Service → Config → Client → Text → Text → Client × Go (Unit {0})
unfolding sent remember_server_session
set_runtime_conf svc cfg c key value =
    let c' = sent cfg c (set_conf key value) in config_reply c' (svc.config c'.calls)

-- The loop over the pairs: the value of the first with the key.
unfoldable pub find_pair : Text → List (Text × Text) → Option Text
find_pair key [] = none
find_pair key ((k, v) ∷ pairs) =
    let rest = find_pair key pairs in if text_eq k key then some v else rest

abbrev pub conf_value : Client → Text → Result GrpcError ConfigReply → Client × Go (Option Text)
conf_value c key (err e) = (c, err (wrapped e))
conf_value c key (ok resp) =
    (remember_server_session c resp.server_session, ok (find_pair key resp.pairs))

unfoldable pub get_runtime_conf : Service → Config → Client → Text → Client × Go (Option Text)
unfolding sent remember_server_session find_pair
get_runtime_conf svc cfg c key =
    let c' = sent cfg c (get_conf key) in conf_value c' key (svc.config c'.calls)

abbrev pub version_reply : Client → Result GrpcError VersionReply → Client × Go Text
version_reply c (err e) = (c, err (wrapped e))
version_reply c (ok resp) = (remember_server_session c resp.server_session, ok resp.version)

unfoldable pub server_spark_version : Service → Config → Client → Client × Go Text
unfolding sent remember_server_session
server_spark_version svc cfg c =
    let c' = sent cfg c spark_version in version_reply c' (svc.analyze c'.calls)

abbrev pub interrupt_reply : Client → Option GrpcError → Client × Option GoError
interrupt_reply c none = (c, none)
interrupt_reply c (some e) = (c, some (wrapped e))

unfoldable pub interrupt : Service → Config → Client → Client × Option GoError
unfolding sent
interrupt svc cfg c =
    let c' = sent cfg c interrupt_all in interrupt_reply c' (svc.interrupt c'.calls)

-- The error of a channel.
abbrev pub channel_error : Option Message → Option GoError
channel_error none = none
channel_error (some m) = some (other m)

-- `Close`: the answer to ReleaseSession is dropped.
unfoldable pub close : Service → Config → Client → Client × Option GoError
unfolding sent
close svc cfg c =
    let c' = sent cfg (record c { closed = true }) release_session in
    if c.closed then (c, none) else (c', channel_error (svc.close_channel c'.calls))
