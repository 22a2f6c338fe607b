-- ===== src/Connect/Client/Same.antt =====
-- What the requests of a client leave as it is, once they are sent.
use adbc_driver_spark.Base.{◌≡◌, refl, ◌∙◌, Option, none, some, List, [], Result, ok, err}
use adbc_driver_spark.Base.Text.{Text}
use adbc_driver_spark.Adbc.{GoError, Go}
use adbc_driver_spark.Spark.Params.{Literal}
use adbc_driver_spark.Connect.Errors.{GrpcError}
use adbc_driver_spark.Connect.Config.{Config}
use adbc_driver_spark.Connect.Reader.{Stream, new_result_reader}
use adbc_driver_spark.Connect.Client.{
  execute_sql, ConfigReply, VersionReply, Service, Client, sent, ResultReader, opened, open_stream,
  execute, limit_zero, schema_of_reader, schema_of, config_reply, conf_value, version_reply,
  interrupt_reply, remember_server_session,
}

-- Everything but the server's session id is the same.
pub record Same (c d : Client) : Type 0 where
  pub session : d.session_id ≡ c.session_id
  pub closed_same : d.closed ≡ c.closed
  pub calls_same : d.calls ≡ c.calls

pub Same-refl : (c : Client) → Same c c
Same-refl c = record { session = refl; closed_same = refl; calls_same = refl }

pub opened-Same : (c : Client) (p : ResultReader × Option GoError) → Same c (opened c p).0
opened-Same c (r, none) = record { session = refl; closed_same = refl; calls_same = refl }
opened-Same c (r, some e) = record { session = refl; closed_same = refl; calls_same = refl }

pub open_stream-Same :
    (svc : Service) (c : Client) (reply : Result GrpcError Stream)
    → Same c (open_stream svc c reply).0
open_stream-Same svc c (err e) = Same-refl c
open_stream-Same svc c (ok stream) =
    opened-Same c (new_result_reader svc.decode [] stream c.server_session_id)

pub execute-Same :
    (svc : Service) (cfg : Config) (c : Client) (q : Text) (args : List Literal)
    → Same (sent cfg c (execute_sql q args)) (execute svc cfg c q args).0
unfolding execute
execute-Same svc cfg c q args = open_stream-Same svc _ _

pub schema_of_reader-Same :
    (svc : Service) (c : Client) (reader : Go ResultReader)
    → Same c (schema_of_reader svc c reader).0
unfolding schema_of_reader
schema_of_reader-Same svc c (err e) = Same-refl c
schema_of_reader-Same svc c (ok r) = record {
  session = refl;
  closed_same = refl;
  calls_same = refl;
}

pub Same-trans : {a b c : Client} → Same a b → Same b c → Same a c
Same-trans f g = record {
  session = g.session ∙ f.session;
  closed_same = g.closed_same ∙ f.closed_same;
  calls_same = g.calls_same ∙ f.calls_same;
}

pub schema_of-Same :
    (svc : Service) (cfg : Config) (c : Client) (q : Text)
    → Same (sent cfg c (execute_sql (limit_zero q) [])) (schema_of svc cfg c q).0
unfolding schema_of
schema_of-Same svc cfg c q =
    let (c', reader) = execute svc cfg c (limit_zero q) [] in
    Same-trans (execute-Same svc cfg c (limit_zero q) []) (schema_of_reader-Same svc c' reader)

pub config_reply-Same :
    (c : Client) (reply : Result GrpcError ConfigReply) → Same c (config_reply c reply).0
unfolding remember_server_session
config_reply-Same c (err e) = Same-refl c
config_reply-Same c (ok resp) = record { session = refl; closed_same = refl; calls_same = refl }

pub conf_value-Same :
    (c : Client) (k : Text) (reply : Result GrpcError ConfigReply) → Same c (conf_value c k reply).0
unfolding remember_server_session
conf_value-Same c k (err e) = Same-refl c
conf_value-Same c k (ok resp) = record { session = refl; closed_same = refl; calls_same = refl }

pub version_reply-Same :
    (c : Client) (reply : Result GrpcError VersionReply) → Same c (version_reply c reply).0
unfolding remember_server_session
version_reply-Same c (err e) = Same-refl c
version_reply-Same c (ok resp) = record { session = refl; closed_same = refl; calls_same = refl }

pub interrupt_reply-Same :
    (c : Client) (reply : Option GrpcError) → Same c (interrupt_reply c reply).0
interrupt_reply-Same c none = Same-refl c
interrupt_reply-Same c (some e) = Same-refl c
