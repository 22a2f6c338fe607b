-- ===== src/Connect/Client/Results.antt =====
-- What a query returns, against the content of the stream that the server answers with.
use adbc_driver_spark.Base.{
  suc, ◌≡◌, refl, sym, ap, ap₂, subst, ◌∙◌, Option, none, some, List, [], ◌∷◌, ok, err, arith,
  length,
}
use adbc_driver_spark.Base.Text.{Text}
use adbc_driver_spark.Adbc.{GoError, Go}
use adbc_driver_spark.Arrow.{Schema, Batch}
use adbc_driver_spark.Spark.Params.{Literal}
use adbc_driver_spark.Connect.Errors.{GrpcError, wrapped}
use adbc_driver_spark.Connect.Config.{Config}
use adbc_driver_spark.Connect.Reader.{Stream, Ipc, or_else}
use adbc_driver_spark.Connect.Reader.Delivery.{contents, pending}
use adbc_driver_spark.Connect.Reader.Delivery.Loops.{Opens, new_result_reader-Opens, drain-pending}
use adbc_driver_spark.Connect.Reader.SchemaCapture.{first_schema, new_result_reader-schema}
use adbc_driver_spark.Connect.Client.{
  execute_sql, Service, Client, call_of, sent, ResultReader, opened, open_stream, execute, read_all,
  error_or, schema_or_nil, schema_of_reader, schema_of, limit_zero,
}

pub read_all-pending :
    (decode : Text → Ipc Schema Batch) (r : ResultReader)
    → ((read_all decode r).0 ≡ (pending decode r).0)
      × ((read_all decode r).1.error ≡ (pending decode r).1)
unfolding read_all
read_all-pending decode r =
    let (last, d, e) = drain-pending decode (suc (length (pending decode r).0)) r (omega arith) in
    rw (d, read_all) (refl, e)

-- What a caller gets who reads an opened result to its end.
abbrev pub Yields :
    (Text → Ipc Schema Batch) → List Batch × Option GoError → Go ResultReader → Type 0
Yields decode content (err e) = content ≡ ([], some e)
Yields decode content (ok r) =
    ((read_all decode r).0 ≡ content.0) × ((read_all decode r).1.error ≡ content.1)

opened-Yields :
    (decode : Text → Ipc Schema Batch) (c : Client) (content : List Batch × Option GoError)
    (p : ResultReader × Option GoError)
    → Opens decode content p
    → Yields decode content (opened c p).1
opened-Yields decode c content (r, some e) h = h
opened-Yields decode c content (r, none) h =
    let (recs, error) = read_all-pending decode r in
    (recs ∙ ap (λ x. x.0) h, error ∙ ap (λ x. x.1) h)

-- A query that the server answers with a stream yields the content of that stream: all its records
-- in order and its error, or only the error if no record came before it.
pub execute-Yields :
    (svc : Service) (cfg : Config) (c : Client) (query : Text) (args : List Literal)
    {stream : Stream}
    → svc.execute (call_of cfg c (execute_sql query args) ∷ c.calls) ≡ ok stream
    → Yields svc.decode (contents svc.decode stream) (execute svc cfg c query args).1
unfolding execute sent
execute-Yields svc cfg c query args {stream} e =
    let c' = sent cfg c (execute_sql query args) in
    subst (λ reply. Yields svc.decode (contents svc.decode stream) (open_stream svc c' reply).1)
      (sym e)
      (opened-Yields svc.decode c' (contents svc.decode stream) _
        (new_result_reader-Opens svc.decode [] stream c'.server_session_id))

-- A query that the server refuses returns the refusal as an ADBC error.
pub execute_refused :
    (svc : Service) (cfg : Config) (c : Client) (query : Text) (args : List Literal) {e : GrpcError}
    → svc.execute (call_of cfg c (execute_sql query args) ∷ c.calls) ≡ err e
    → (execute svc cfg c query args).1 ≡ err (wrapped e)
unfolding execute sent
execute_refused svc cfg c query args h =
    ap (λ reply. (open_stream svc (sent cfg c (execute_sql query args)) reply).1) h

schema_of_reader-opened :
    (svc : Service) (c d : Client) (stream : Stream) (p : ResultReader × Option GoError)
    → Opens svc.decode (contents svc.decode stream) p
    → ((r : ResultReader) → p ≡ (r, none) → r.schema ≡ or_else (first_schema svc.decode stream) [])
    → (schema_of_reader svc c (opened d p).1).1
      ≡ error_or (contents svc.decode stream).1 (schema_or_nil (first_schema svc.decode stream))
unfolding schema_of_reader
schema_of_reader-opened svc c d stream (r, some e) h k =
    ap
      (λ (x : List Batch × Option GoError).
        error_or x.1 (schema_or_nil (first_schema svc.decode stream)))
      (sym h)
schema_of_reader-opened svc c d stream (r, none) h k =
    ap₂ error_or ((read_all-pending svc.decode r).1 ∙ ap (λ x. x.1) h)
      (ap schema_or_nil (k r refl) ∙ schema_or_else (first_schema svc.decode stream))
  where
    schema_or_else : (o : Option Schema) → schema_or_nil (or_else o []) ≡ schema_or_nil o
    schema_or_else none = refl
    schema_or_else (some s) = refl

-- `schema_of` on a query that the server answers with a stream: the schema of the stream's first
-- accepted payload (no columns without one) if the stream ends without an error, else its error.
pub schema_of_lem :
    (svc : Service) (cfg : Config) (c : Client) (query : Text) {stream : Stream}
    → svc.execute (call_of cfg c (execute_sql (limit_zero query) []) ∷ c.calls) ≡ ok stream
    → (schema_of svc cfg c query).1
      ≡ error_or (contents svc.decode stream).1 (schema_or_nil (first_schema svc.decode stream))
unfolding schema_of execute sent
schema_of_lem svc cfg c query {stream} e =
    let c' = sent cfg c (execute_sql (limit_zero query) []) in
    let session = c'.server_session_id in
    ap (λ reply. (schema_of_reader svc (open_stream svc c' reply).0 (open_stream svc c' reply).1).1)
      e
    ∙ schema_of_reader-opened svc _ c' stream _
        (new_result_reader-Opens svc.decode [] stream session)
        (λ r h. new_result_reader-schema svc.decode [] stream session h)
