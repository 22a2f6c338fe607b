-- ===== src/Connect/Reader/Delivery/Loops.antt =====
-- Loops over a reader: what they read, and that they end.
use adbc_driver_spark.Base.{
  ℕ, zero, suc, ◌<◌, Bool, true, false, ◌≡◌, refl, sym, ap, subst, ◌∙◌, Option, none, some, List,
  [], ◌∷◌, ◌++◌, arith, length,
}
use adbc_driver_spark.Base.Text.{Text}
use adbc_driver_spark.Adbc.{GoError}
use adbc_driver_spark.Connect.Reader.{
  Stream, Ipc, Reader, to_list, or_else, fill_from, fill, prepend, next, fresh, finish_new,
  new_result_reader, drain,
}
use adbc_driver_spark.Connect.Reader.Delivery.{
  contents, pending, Idle, Filled, ended, more, fill_from-Filled, Filled-pending, Filled-error,
}
use adbc_driver_spark.Connect.Reader.Delivery.Steps.{Steps, record_read, at_end, next-Steps}

module _ {Schema Rec : Type 0} (decode : Text → Ipc Schema Rec) where
  -- What `drain` makes of one step.
  abbrev drain_step : ℕ → Option (Reader Schema Rec × Bool) → Option (List Rec × Reader Schema Rec)
  drain_step f o = elim o [
    | none ↦ none
    | some (r', false) ↦ some ([], r')
    | some (r', true) ↦ prepend (to_list r'.cur) (drain decode f r')
  ]

  drain-suc :
      (f : ℕ) (r : Reader Schema Rec) → drain decode (suc f) r ≡ drain_step f (next decode r)
  unfolding drain
  drain-suc f r = refl

  abbrev Drained : List Rec × Option GoError → Option (List Rec × Reader Schema Rec) → Type 0
  Drained content o =
      (last : Reader Schema Rec) × (o ≡ some (content.0, last)) × (last.error ≡ content.1)

  drain_step-read :
      (f : ℕ) (r : Reader Schema Rec) (x : Rec) (content : List Rec × Option GoError)
      → r.cur ≡ some x
      → content ≡ (x ∷ (pending decode r).0, (pending decode r).1)
      → Drained (pending decode r) (drain decode f r)
      → Drained content (drain_step f (some (r, true)))
  drain_step-read f r x content c e (last, d, same) = (
    last,
    ap (prepend (to_list r.cur)) d
        ∙ ap (λ o. some (to_list o ++ (pending decode r).0, last)) c
        ∙ ap (λ p. some (p.0, last)) (sym e),
    same ∙ sym (ap (λ p. p.1) e),
  )

  drain_step-Drained :
      (f : ℕ) (content : List Rec × Option GoError) (o : Option (Reader Schema Rec × Bool))
      → Steps decode content o
      → length content.0 < suc f
      → ((r : Reader Schema Rec)
          → length (pending decode r).0 < f
          → Drained (pending decode r) (drain decode f r))
      → Drained content (drain_step f o)
  drain_step-Drained f content _ (at_end r e) h ih =
      (r, ap (λ p. some (p.0, r)) (sym e), sym (ap (λ p. p.1) e))
  drain_step-Drained f content _ (record_read x r c e) h ih =
      drain_step-read f r x content c e (ih r (omega (arith, ap (λ p. length p.0) e)))

  -- A loop over all records: it ends, and it has read the pending records up to the pending error.
  pub drain-pending :
      (f : ℕ) (r : Reader Schema Rec)
      → length (pending decode r).0 < f
      → (last : Reader Schema Rec) × (drain decode f r ≡ some ((pending decode r).0, last))
        × (last.error ≡ (pending decode r).1)
  drain-pending zero r h = absurd (omega arith)
  drain-pending (suc f) r h = rw (drain-suc f r) (
      drain_step-Drained f (pending decode r) (next decode r) (next-Steps decode r) h
        (drain-pending f))

  -- The error that comes before the first record, if the content begins with one.
  abbrev pub fails_at_once : List Rec × Option GoError → Option GoError
  fails_at_once ([], e) = e
  fails_at_once (x ∷ xs, e) = none

  -- What a caller gets from a new reader that it reads to the end: an error at once where the content
  -- begins with one, and otherwise the records and the error after them.
  abbrev pub Reads : ℕ → List Rec × Option GoError → Reader Schema Rec × Option GoError → Type 0
  Reads f content (r, some e) = content ≡ ([], some e)
  Reads f content (r, none) = (fails_at_once content ≡ none) × Drained content (drain decode f r)

  Filled-fails_at_once :
      {content : List Rec × Option GoError} (r : Reader Schema Rec)
      → Filled decode content r
      → r.error ≡ none
      → fails_at_once content ≡ none
  Filled-fails_at_once r (ended d b p c) e = ap fails_at_once c ∙ e
  Filled-fails_at_once r (more x xs d b p n c) e = ap fails_at_once c

  finish_new-Reads :
      (f : ℕ) (empty : Schema) (content : List Rec × Option GoError) (r : Reader Schema Rec)
      (o : Option GoError)
      → Filled decode content r
      → length content.0 < f
      → r.error ≡ o
      → Reads f content (finish_new empty r o)
  unfolding finish_new
  finish_new-Reads f empty content r (some e) fl h same = Filled-error decode r fl same
  finish_new-Reads f empty content r none fl h same =
      let r' = record r { schema = or_else r.schema empty } in
      let left : pending decode r' ≡ content = Filled-pending decode r fl same in
      (
        Filled-fails_at_once r fl same,
        subst (λ c. Drained c (drain decode f r')) left
            (drain-pending f r' (omega (arith, ap (λ c. length c.0) left))),
      )

  -- A reader over any stream delivers the content of the stream: `newResultReader` fails exactly if
  -- the content begins with an error, with that error; and otherwise a loop over the reader ends after
  -- having read all records in order, with the error of the content, if any, in `Err`. Fuel above the
  -- number of records is enough.
  pub new_result_reader-Reads :
      (f : ℕ) (empty : Schema) (stream : Stream) (session : Text)
      → length (contents decode stream).0 < f
      → Reads f (contents decode stream) (new_result_reader decode empty stream session)
  unfolding new_result_reader fill
  new_result_reader-Reads f empty stream session h =
      let r = fill_from decode stream (fresh stream session) in
      let i : Idle decode (fresh stream session) = record {
        no_buf = refl;
        at_start = refl;
        no_error = refl;
        running = refl;
      } in
      finish_new-Reads f empty (contents decode stream) r r.error
        (fill_from-Filled decode stream (fresh stream session) i) h refl

  -- The same before anything is read.
  abbrev pub Opens : List Rec × Option GoError → Reader Schema Rec × Option GoError → Type 0
  Opens content (r, some e) = content ≡ ([], some e)
  Opens content (r, none) = pending decode r ≡ content

  finish_new-Opens :
      (empty : Schema) (content : List Rec × Option GoError) (r : Reader Schema Rec)
      (o : Option GoError)
      → Filled decode content r
      → r.error ≡ o
      → Opens content (finish_new empty r o)
  unfolding finish_new
  finish_new-Opens empty content r (some e) fl same = Filled-error decode r fl same
  finish_new-Opens empty content r none fl same = Filled-pending decode r fl same

  pub new_result_reader-Opens :
      (empty : Schema) (stream : Stream) (session : Text)
      → Opens (contents decode stream) (new_result_reader decode empty stream session)
  unfolding new_result_reader fill
  new_result_reader-Opens empty stream session =
      let r = fill_from decode stream (fresh stream session) in
      let i : Idle decode (fresh stream session) = record {
        no_buf = refl;
        at_start = refl;
        no_error = refl;
        running = refl;
      } in
      finish_new-Opens empty (contents decode stream) r r.error
        (fill_from-Filled decode stream (fresh stream session) i) refl
