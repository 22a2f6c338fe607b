-- ===== src/Export/Statements/Queries.antt =====
-- A query through the C interface, from the statement to the records that the caller reads.
use adbc_driver_spark.Base.{
  ℕ, suc, Bool, true, false, ◌≡◌, refl, sym, ap, subst, ◌∙◌, Option, none, some, List, [], ◌∷◌, ok,
  arith, length, is_nil, get_elem?,
}
use adbc_driver_spark.Base.Text.{codes}
use adbc_driver_spark.Adbc.{Status, GoError, text_of}
use adbc_driver_spark.Arrow.{Schema, Batch}
use adbc_driver_spark.Spark.Params.{Literal}
use adbc_driver_spark.Connect.Config.Split.{Avoids}
use adbc_driver_spark.Connect.Reader.{Stream, new_result_reader, retain, release}
use adbc_driver_spark.Connect.Reader.Delivery.{contents, pending}
use adbc_driver_spark.Connect.Reader.Delivery.Loops.{Opens, new_result_reader-Opens}
use adbc_driver_spark.Connect.Reader.Counts.{HeldOrThrough, new_result_reader-HeldOrThrough}
use adbc_driver_spark.Connect.Client.{
  Client, ResultReader, call_of, execute_sql, execute, opened, open_stream, sent,
}
use adbc_driver_spark.Spark.Database.{Connection}
use adbc_driver_spark.Spark.Statement.{Statement, positional_literals, ran}
use adbc_driver_spark.Spark.Statement.Execution.{query_runs}
use adbc_driver_spark.Export.Errors.{AdbcError}
use adbc_driver_spark.Export.Errors.Reports.{PrintsPlain, status_of, err_to_adbc_err-status}
use adbc_driver_spark.Export.Streams.{ArrayStream, CArrayStream, hand_over, export_record_reader}
use adbc_driver_spark.Export.Streams.Delivery.{live, pull, pull-pending, errno_after, TellsEnd}
use adbc_driver_spark.Export.Streams.Life.{release-retain}
use adbc_driver_spark.Export.World.{
  Env, GoConnection, World, CStmt, Pointer, Output, no_output, info_stream, objects_stream,
  names_stream, result_stream, schema_output, rows_affected, Reply, answer_error, recovered,
  check_stmt_init, check_stmt_alloc, checked, new_context, cancel_context,
}
use adbc_driver_spark.Export.Statements.{
  holding, query_output, after_call, execute_on, statement_execute_query,
}

module _ (env : Env) where
  -- What a caller gets who executes a query and reads the stream to its end: the status of the error
  -- that the content begins with, or all of the content.
  abbrev pub Delivers : List Batch × Option GoError → Status → Output → Type 0
  Delivers content code no_output = (g : GoError) × (content ≡ ([], some g)) × (code ≡ status_of g)
  Delivers content code (result_stream n s) =
      (code ≡ Status.ok)
      × let p = env.printer in
        let decode = env.service.decode in
        (s' : _) × (pull p decode (suc (length content.0)) (some s)
          ≡ some (content.0, errno_after content.1, s'))
        × TellsEnd p decode content.1 s'
  Delivers content code (info_stream _) = ⊥
  Delivers content code (objects_stream _) = ⊥
  Delivers content code (names_stream _) = ⊥
  Delivers content code (schema_output _) = ⊥
  Delivers content code (rows_affected _) = ⊥

  module _ (plain : PrintsPlain env.printer) where
    query_output-Delivers :
        (st : Pointer CStmt) (w : World) (e : Option AdbcError) (affected : Bool) (a : ℕ)
        (conn : Connection) (c : Client) (content : List Batch × Option GoError)
        (o : ResultReader × Option GoError)
        → ((g : GoError) → content.1 ≡ some g → Avoids b'%' (env.printer.render (text_of g)))
        → Opens env.service.decode content o
        → HeldOrThrough env.service.decode o
        → let r = query_output env st w e affected a (ran conn (opened c o)) in
          Delivers content r.code r.output
    unfolding answer_error hand_over export_record_reader
    query_output-Delivers st w e affected a conn c content (r, some g) no_verb h k =
        (g, h, err_to_adbc_err-status env.printer e g)
    query_output-Delivers st w e affected a conn c content (r, none) no_verb h k =
        let decode = env.service.decode in
        let same : pending decode (release (retain r)) ≡ content =
          ap (pending decode) (release-retain r (ap (λ z. z.0) k.count)) ∙ h in
        let p = env.printer in
        let c' : CArrayStream Schema Batch = record {
          rdr = release (retain r);
          adbc_err = none;
          status = Status.ok;
        } in
        let delivered =
          pull-pending p decode (suc (length content.0)) c'
            (omega (arith, ap (λ (q : List Batch × Option GoError). length q.0) same)) plain
            (λ g x. no_verb g (ap (λ (q : List Batch × Option GoError). q.1) (sym same) ∙ x)) in
        (
          refl,
          subst
              (λ (q : List Batch × Option GoError).
                (s' : Option (ArrayStream Schema Batch)) × (pull p decode (suc (length content.0))
                    (live c')
                  ≡ some (q.0, errno_after q.1, s'))
                × TellsEnd p decode q.1 s')
              same delivered,
        )

    -- A statement of an open connection, in a driver that has not panicked.
    module _ (w : World) (e : Option AdbcError) (context : Option ℕ) (s : Statement) (a : ℕ) where
      abbrev ready_struct : Pointer CStmt
      ready_struct = some (some (record { context = context; stmt = some (s, a) }))

      abbrev calm : World
      calm = record w { poisoned = false }

      served :
          (g : GoConnection) (c : Client) (args : List Literal) {stream : Stream} (affected : Bool)
          → get_elem? w.connections a ≡ some g
          → s.attached ≡ true
          → g.conn.client ≡ some c
          → is_nil s.query ≡ false
          → positional_literals env.decimal_text s.params ≡ some (ok args)
          → env.service.execute (call_of g.config c (execute_sql s.query args) ∷ c.calls)
            ≡ ok stream
          → let c' = sent g.config c (execute_sql s.query args) in
            let (w', ctx) = new_context calm context in
            let st = holding (record { context = some ctx; stmt = some (s, a) }) s a in
            statement_execute_query env calm e ready_struct true affected
            ≡ query_output env st w' e affected a (
                ran g.conn
                  (opened c' (new_result_reader env.service.decode [] stream c'.server_session_id)))
      unfolding statement_execute_query check_stmt_init check_stmt_alloc checked new_context
          cancel_context execute
      served g c args {stream} affected at_a attached client query literals answered =
          let (w', ctx) = new_context calm context in
          let st = holding (record { context = some ctx; stmt = some (s, a) }) s a in
          let fname = codes "AdbcStatementExecuteQuery" in
          let c' = sent g.config c (execute_sql s.query args) in
          ap (λ o. recovered env st w' e fname (execute_on env st w' e true affected s a o)) at_a
          ∙ ap
              (λ o.
                recovered env st w' e fname (after_call o (query_output env st w' e affected a)))
              (query_runs env.decimal_text env.service g.config g.conn s c args attached client
                query literals)
          ∙ ap
              (λ r. query_output env st w' e affected a (ran g.conn (open_stream env.service c' r)))
              answered

    -- `SparkStatementExecuteQuery` with an output stream, on a statement that can run and whose query
    -- the server answers with a stream: either the content of the stream begins with an error, and the
    -- call returns its status and exports nothing; or the call returns ADBC_STATUS_OK, and a consumer
    -- of the exported stream gets all records in order, then 0 or the errno of the error at which the
    -- content stops, which SparkErrorFromArrayStream then tells. The driver has not panicked, and no
    -- text of an error holds a '%'.
    pub statement_execute_query-Delivers :
        (w : World) (e : Option AdbcError) (context : Option ℕ) (s : Statement) (a : ℕ)
        (g : GoConnection) (c : Client) (args : List Literal) {stream : Stream} (affected : Bool)
        → w.poisoned ≡ false
        → get_elem? w.connections a ≡ some g
        → s.attached ≡ true
        → g.conn.client ≡ some c
        → is_nil s.query ≡ false
        → positional_literals env.decimal_text s.params ≡ some (ok args)
        → env.service.execute (call_of g.config c (execute_sql s.query args) ∷ c.calls) ≡ ok stream
        → ((x : GoError)
            → (contents env.service.decode stream).1 ≡ some x
            → Avoids b'%' (env.printer.render (text_of x)))
        → let st : Pointer CStmt = some (some (record { context = context; stmt = some (s, a) })) in
          let r = statement_execute_query env w e st true affected in
          Delivers (contents env.service.decode stream) r.code r.output
    statement_execute_query-Delivers w e context s a g c args {stream} affected calm' at_a attached
          client query literals answered no_verb =
        let content = contents env.service.decode stream in
        let st : Pointer CStmt = some (some (record { context = context; stmt = some (s, a) })) in
        let c' = sent g.config c (execute_sql s.query args) in
        let session = c'.server_session_id in
        subst
          (λ v.
            let r = statement_execute_query env v e st true affected in
            Delivers content r.code r.output)
          (ap (λ b. record w { poisoned = b }) (sym calm'))
          (subst (λ (r : Reply CStmt). Delivers content r.code r.output)
            (sym (
              served w e context s a g c args affected at_a attached client query literals
                answered))
            (query_output-Delivers _ _ e affected a g.conn c' content
              (new_result_reader env.service.decode [] stream session) no_verb
              (new_result_reader-Opens env.service.decode [] stream session)
              (new_result_reader-HeldOrThrough env.service.decode [] stream session)))
