-- ===== src/Spark/Statement/Execution.antt =====
-- Executing a statement.
use adbc_driver_spark.Base.{
  true, false, ◌≡◌, ◌≢◌, ◌↔◌, refl, sym, ap, subst, ◌∙◌, Option, none, some, List, [], ◌∷◌, ok, err,
  arith, ◌==◌, is_nil, All, if_true, if_false, Bool-cases, inl, inr,
}
use adbc_driver_spark.Base.Int.{ℤ}
use adbc_driver_spark.Base.Text.{Text}
use adbc_driver_spark.Adbc.{GoError, Go}
use adbc_driver_spark.Arrow.{Batch}
use adbc_driver_spark.Connect.Config.{Config}
use adbc_driver_spark.Connect.Client.{execute_sql, Service, Client, call_of, ResultReader, execute}
use adbc_driver_spark.Connect.Client.Results.{Yields, execute-Yields}
use adbc_driver_spark.Connect.Reader.{Stream}
use adbc_driver_spark.Connect.Reader.Delivery.{contents}
use adbc_driver_spark.Spark.Connection.{close_client, close_client-client, close_connection}
use adbc_driver_spark.Spark.Database.{Connection}
use adbc_driver_spark.Spark.Params.{Column, Literal, column_to_literal, cell_to_literal}
use adbc_driver_spark.Spark.Statement.{
  Params, Statement, close_statement, err_closed, append_literal, literals_of, positional_literals,
  ran, run_with, query_client, execute_query, discard, execute_update,
}

-- The literals stand for the columns, one for one and in order.
pub data Converts (decimal_text : ℤ → ℤ → Text) : List Column → List Literal → Type 0 where
  no_columns : Converts decimal_text [] []
  column :
      {col : Column} {lit : Literal} {cols : List Column} {lits : List Literal}
      → column_to_literal decimal_text col 0 ≡ some (ok lit)
      → Converts decimal_text cols lits
      → Converts decimal_text (col ∷ cols) (lit ∷ lits)

module _ (decimal_text : ℤ → ℤ → Text) where
  append_literal-eq :
      (lit : Literal) (o : Option (Go (List Literal))) {lits : List Literal}
      → append_literal lit o ≡ some (ok lits)
      → (rest : List Literal) × (o ≡ some (ok rest)) × (lit ∷ rest ≡ lits)
  append_literal-eq lit none h = cc
  append_literal-eq lit (some (err e)) h = cc
  append_literal-eq lit (some (ok rest)) h = (rest, refl, cc)

  abbrev with_literal :
      Option (Go Literal) → Option (Go (List Literal)) → Option (Go (List Literal))
  with_literal none later = none
  with_literal (some (err e)) later = some (err e)
  with_literal (some (ok lit)) later = append_literal lit later

  literals_of-cons :
      (col : Column) (cols : List Column) (o : Option (Go Literal))
      → column_to_literal decimal_text col 0 ≡ o
      → literals_of decimal_text (col ∷ cols) ≡ with_literal o (literals_of decimal_text cols)
  unfolding literals_of
  literals_of-cons col cols none e = rw (e, literals_of)
  literals_of-cons col cols (some (err x)) e = rw (e, literals_of)
  literals_of-cons col cols (some (ok lit)) e = rw (e, literals_of)

  with_literal-Converts :
      (col : Column) (cols : List Column) (o : Option (Go Literal)) {lits : List Literal}
      → column_to_literal decimal_text col 0 ≡ o
      → with_literal o (literals_of decimal_text cols) ≡ some (ok lits)
      → ((ls : List Literal)
          → literals_of decimal_text cols ≡ some (ok ls)
          → Converts decimal_text cols ls)
      → Converts decimal_text (col ∷ cols) lits
  with_literal-Converts col cols none e h ih = cc
  with_literal-Converts col cols (some (err x)) e h ih = cc
  with_literal-Converts col cols (some (ok lit)) e h ih =
      let (rest, later, same) = append_literal-eq lit (literals_of decimal_text cols) h in
      subst (Converts decimal_text (col ∷ cols)) same (column e (ih rest later))

  literals_of-Converts :
      (cols : List Column) (lits : List Literal)
      → literals_of decimal_text cols ≡ some (ok lits)
      → Converts decimal_text cols lits
  literals_of-Converts [] lits h =
      let e : [] ≡ lits = unfold literals_of in cc in subst (Converts decimal_text []) e no_columns
  literals_of-Converts (col ∷ cols) lits h =
      let o = column_to_literal decimal_text col 0 in
      with_literal-Converts col cols o refl (sym (literals_of-cons col cols o refl) ∙ h)
        (literals_of-Converts cols)

  Converts-literals_of :
      {cols : List Column} {lits : List Literal}
      → Converts decimal_text cols lits
      → literals_of decimal_text cols ≡ some (ok lits)
  Converts-literals_of no_columns = unfold literals_of in refl
  Converts-literals_of (column {col} {lit} {cols} e d) =
      literals_of-cons col cols (some (ok lit)) e ∙ ap (append_literal lit) (Converts-literals_of d)

  -- With a bound row, `positional_literals` returns a list exactly when that list holds the literals of
  -- the row's columns, one for one and in order.
  pub positional_literals-Converts :
      (p : Params) (lits : List Literal)
      → p.num_rows ≢ 0
      → (positional_literals decimal_text (some p) ≡ some (ok lits))
        ↔ Converts decimal_text p.columns lits
  unfolding positional_literals
  positional_literals-Converts p lits n =
      let e : (p.num_rows == 0) ≡ false = ground arith in
      (
        λ h. literals_of-Converts p.columns lits (sym (if_false _ _ e) ∙ h),
        λ d. if_false _ _ e ∙ Converts-literals_of d,
      )

  -- Every column has a row to read.
  abbrev pub HasRow : Column → Type 0
  HasRow [] = ⊥
  HasRow (_ ∷ _) = Unit

  column-HasRow :
      (col : Column)
      → HasRow col
      → (r : Go Literal) × (column_to_literal decimal_text col 0 ≡ some r)
  unfolding column_to_literal
  column-HasRow [] h = absurd h
  column-HasRow (v ∷ vs) h = (cell_to_literal decimal_text v, refl)

  append_literal-ne-none :
      (lit : Literal) (o : Option (Go (List Literal))) → o ≢ none → append_literal lit o ≢ none
  append_literal-ne-none lit none n = λ _. n refl
  append_literal-ne-none lit (some (err e)) n = λ h. cc
  append_literal-ne-none lit (some (ok ls)) n = λ h. cc

  with_literal-ne-none :
      (r : Go Literal) (o : Option (Go (List Literal))) → o ≢ none → with_literal (some r) o ≢ none
  with_literal-ne-none (err e) o n = λ h. cc
  with_literal-ne-none (ok lit) o n = append_literal-ne-none lit o n

  -- The conversion does not panic on columns that have a row.
  literals_of-ne-none :
      (cols : List Column) → All HasRow cols → literals_of decimal_text cols ≢ none
  literals_of-ne-none [] h = unfold literals_of in λ e. cc
  literals_of-ne-none (col ∷ cols) h =
      let (r, e) = column-HasRow col h.0 in
      λ x.
        with_literal-ne-none r (literals_of decimal_text cols) (literals_of-ne-none cols h.1)
          (sym (literals_of-cons col cols (some r) e) ∙ x)

-- The error that is left when the result is thrown away.
abbrev pub update_error : Option (Connection × Option GoError) → Option (Option GoError)
update_error none = none
update_error (some (conn, e)) = some e

module _ (decimal_text : ℤ → ℤ → Text) (svc : Service) (cfg : Config) where
  pub no_client :
      (conn : Connection) (s : Statement)
      → conn.client ≡ none
      → execute_query decimal_text svc cfg conn s ≡ some (conn, err err_closed)
  unfolding execute_query query_client
  no_client conn s e = elim (Bool-cases s.attached) [
    | inl a ↦ if_true _ _ a ∙ ap (query_client decimal_text svc cfg conn s) e
    | inr a ↦ if_false _ _ a
  ]

  -- After the connection is closed no statement of it executes, and after a statement is closed it
  -- does not execute: the error is InvalidState, and the connection is left as it is, with no call made.
  pub execute_query_closed :
      (conn : Connection) (s : Statement)
      → let closed = (close_connection svc cfg conn).0 in
        (execute_query decimal_text svc cfg closed s ≡ some (closed, err err_closed))
        × (execute_query decimal_text svc cfg conn (close_statement s)
            ≡ some (conn, err err_closed))
  unfolding close_connection close_statement
  execute_query_closed conn s = (
    no_client (close_client svc cfg conn conn.client).0 s
        (close_client-client svc cfg conn conn.client refl),
    unfold execute_query in refl,
  )

  pub query_runs :
      (conn : Connection) (s : Statement) (c : Client) (args : List Literal)
      → s.attached ≡ true
      → conn.client ≡ some c
      → is_nil s.query ≡ false
      → positional_literals decimal_text s.params ≡ some (ok args)
      → execute_query decimal_text svc cfg conn s ≡ some (ran conn (execute svc cfg c s.query args))
  unfolding execute_query query_client
  query_runs conn s c args a e q l =
      if_true _ _ a
      ∙ ap (query_client decimal_text svc cfg conn s) e
      ∙ if_false _ _ q
      ∙ ap (run_with svc cfg conn c s.query) l

  discard-Yields :
      (content : List Batch × Option GoError) (conn : Connection) (r : Go ResultReader)
      → Yields svc.decode content r
      → update_error (discard svc (some (conn, r))) ≡ some content.1
  discard-Yields content conn (err e) h = ap (λ x. some x.1) (sym h)
  discard-Yields content conn (ok r) h = ap some h.1

  -- `execute_update` on a statement that can run, whose query the server answers with a stream: it
  -- returns the error that the content of the stream ends with, or no error if there is none.
  pub execute_update_lem :
      (conn : Connection) (s : Statement) (c : Client) (args : List Literal) {stream : Stream}
      → s.attached ≡ true
      → conn.client ≡ some c
      → is_nil s.query ≡ false
      → positional_literals decimal_text s.params ≡ some (ok args)
      → svc.execute (call_of cfg c (execute_sql s.query args) ∷ c.calls) ≡ ok stream
      → update_error (execute_update decimal_text svc cfg conn s)
        ≡ some (contents svc.decode stream).1
  unfolding execute_update
  execute_update_lem conn s c args {stream} a e q l served =
      ap (λ o. update_error (discard svc o)) (query_runs conn s c args a e q l)
      ∙ discard-Yields (contents svc.decode stream) (ran conn (execute svc cfg c s.query args)).0
          (execute svc cfg c s.query args).1 (execute-Yields svc cfg c s.query args served)
