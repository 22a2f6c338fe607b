-- ===== src/Export/Streams/Delivery.antt =====
-- What the consumer of an exported stream gets.
use adbc_driver_spark.Base.{
  ℕ, zero, suc, ◌<◌, Bool, true, ◌≡◌, refl, sym, ap, subst, ◌∙◌, Option, none, some, List, [], ◌∷◌,
  arith, length,
}
use adbc_driver_spark.Base.Int.{negsuc}
use adbc_driver_spark.Base.Text.{Text}
use adbc_driver_spark.Adbc.{GoError, text_of}
use adbc_driver_spark.Connect.Config.Split.{Avoids}
use adbc_driver_spark.Connect.Reader.{Ipc, Reader, next}
use adbc_driver_spark.Connect.Reader.Delivery.{pending}
use adbc_driver_spark.Connect.Reader.Delivery.Steps.{Steps, record_read, at_end, next-Steps}
use adbc_driver_spark.Export.Errors.{Printer}
use adbc_driver_spark.Export.Errors.Reports.{
  PrintsPlain, Outcome, status_of, err_to_adbc_err-Outcome,
}
use adbc_driver_spark.Export.Streams.{
  Errno, success, errno_of, Out, untouched, cleared, exported, CArrayStream, ArrayStream,
  error_struct, asking_private, maybe_error, maybe_error_by, next_out, export_record, stored_next,
  get_next, error_from_array_stream,
}

abbrev pub Pulled : Type 0 → Type 0 → Type 0
Pulled Schema Rec = Option (List Rec × Errno × Option (ArrayStream Schema Rec))

module _ {Schema Rec : Type 0} where
  -- A stream of the driver that is not released.
  abbrev pub live : CArrayStream Schema Rec → Option (ArrayStream Schema Rec)
  live c = some (record { ours = true; private_data = some c })

  abbrev pub prepend_pulled : Rec → Pulled Schema Rec → Pulled Schema Rec
  prepend_pulled x none = none
  prepend_pulled x (some (xs, e, s)) = some (x ∷ xs, e, s)

  -- A consumer's loop: it calls `get_next` until the array comes back without a record.
  abbrev pub pull :
      Printer → (Text → Ipc Schema Rec) → ℕ → Option (ArrayStream Schema Rec) → Pulled Schema Rec
  pull p decode zero s = none
  pull p decode (suc f) s = elim (get_next p decode s) [
    | none ↦ none
    | some (s', untouched, e) ↦ some ([], e, s')
    | some (s', cleared, e) ↦ some ([], e, s')
    | some (s', exported x, e) ↦ prepend_pulled x (pull p decode f s')
  ]

-- The result of the call that ends a stream.
abbrev pub errno_after : Option GoError → Errno
errno_after none = success
errno_after (some g) = errno_of (status_of g)

module _ {Schema Rec : Type 0} (p : Printer) (decode : Text → Ipc Schema Rec) where
  -- What the consumer's loop makes of one call.
  abbrev pull_step :
      ℕ → Option (Option (ArrayStream Schema Rec) × Out Rec × Errno) → Pulled Schema Rec
  pull_step f o = elim o [
    | none ↦ none
    | some (s', untouched, e) ↦ some ([], e, s')
    | some (s', cleared, e) ↦ some ([], e, s')
    | some (s', exported x, e) ↦ prepend_pulled x (pull p decode f s')
  ]

  pull-live :
      (f : ℕ) (c : CArrayStream Schema Rec)
      → pull p decode (suc f) (live c)
        ≡ pull_step f (stored_next (live c) (next_out p c (next decode c.rdr)))
  unfolding get_next
  pull-live f c = refl

  -- The loop has read the content, and ended as `maybe_error` says of the last state of the reader.
  abbrev PulledTo : CArrayStream Schema Rec → List Rec × Option GoError → Pulled Schema Rec → Type 0
  PulledTo c content o =
      (last : Reader Schema Rec) × (last.error ≡ content.1)
      × let (c', e) = maybe_error p (record c { rdr = last }) in (o ≡ some (content.0, e, live c'))

  pull_step-read :
      (f : ℕ) (c : CArrayStream Schema Rec) (r : Reader Schema Rec) (x : Rec)
      (content : List Rec × Option GoError)
      → r.cur ≡ some x
      → content ≡ (x ∷ (pending decode r).0, (pending decode r).1)
      → PulledTo
          (record c { rdr = r })
          (pending decode r)
          (pull p decode f (live (record c { rdr = r })))
      → PulledTo c content (pull_step f (stored_next (live c) (next_out p c (some (r, true)))))
  pull_step-read f c r x content cur e (last, same, d) = (
    last,
    same ∙ sym (ap (λ q. q.1) e),
    ap (λ o. pull_step f (stored_next (live c) (export_record (record c { rdr = r }) o))) cur
        ∙ ap (prepend_pulled x) d
        ∙ ap
            (λ q. some (
              q.0,
              (maybe_error p (record c { rdr = last })).1,
              live (maybe_error p (record c { rdr = last })).0,
            ))
            (sym e),
  )

  pull_step-PulledTo :
      (f : ℕ) (c : CArrayStream Schema Rec) (content : List Rec × Option GoError)
      (o : Option (Reader Schema Rec × Bool))
      → Steps decode content o
      → length content.0 < suc f
      → ((c' : CArrayStream Schema Rec)
          → length (pending decode c'.rdr).0 < f
          → PulledTo c' (pending decode c'.rdr) (pull p decode f (live c')))
      → PulledTo c content (pull_step f (stored_next (live c) (next_out p c o)))
  pull_step-PulledTo f c content _ (at_end r e) h ih = (
    r,
    sym (ap (λ q. q.1) e),
    ap
        (λ q. some (
          q.0,
          (maybe_error p (record c { rdr = r })).1,
          live (maybe_error p (record c { rdr = r })).0,
        ))
        (sym e),
  )
  pull_step-PulledTo f c content _ (record_read x r cur e) h ih =
      pull_step-read f c r x content cur e
        (ih (record c { rdr = r }) (omega (arith, ap (λ q. length q.0) e)))

  pull-PulledTo :
      (f : ℕ) (c : CArrayStream Schema Rec)
      → length (pending decode c.rdr).0 < f
      → PulledTo c (pending decode c.rdr) (pull p decode f (live c))
  pull-PulledTo zero c h = absurd (omega arith)
  pull-PulledTo (suc f) c h = subst (PulledTo c (pending decode c.rdr)) (sym (pull-live f c)) (
      pull_step-PulledTo f c (pending decode c.rdr) (next decode c.rdr) (next-Steps decode c.rdr) h
        (pull-PulledTo f))

  -- The consumer of a stream that has ended finds its error, if any, with its status.
  abbrev pub TellsEnd : Option GoError → Option (ArrayStream Schema Rec) → Type 0
  TellsEnd none s = Unit
  TellsEnd (some g) s =
      let (e, status) = error_from_array_stream s in
      (status ≡ some (status_of g)) × Outcome p (negsuc 2147483647) g e

  maybe_error_by-TellsEnd :
      (c : CArrayStream Schema Rec) (o : Option GoError)
      → PrintsPlain p
      → ((g : GoError) → o ≡ some g → Avoids b'%' (p.render (text_of g)))
      → let (c', e) = maybe_error_by p c o in (e ≡ errno_after o) × TellsEnd o (live c')
  unfolding error_from_array_stream
  maybe_error_by-TellsEnd c none plain no_verb = (refl, tt)
  maybe_error_by-TellsEnd c (some g) plain no_verb =
      let (status, told) =
        err_to_adbc_err-Outcome p (asking_private (error_struct c.adbc_err)) g plain
          (no_verb g refl) in
      (ap errno_of status, (ap some status, told))

  -- A consumer that calls `get_next` on a stream of the driver until an array comes back without a
  -- record gets the pending records of the reader in order; the last call then returns 0 if no error
  -- is pending, and otherwise the errno of the error's status, and SparkErrorFromArrayStream tells that
  -- status and an error struct with the error's text, which must hold no '%'. Fuel above the number of
  -- pending records is enough: the loop ends, and no call panics.
  pub pull-pending :
      (f : ℕ) (c : CArrayStream Schema Rec)
      → length (pending decode c.rdr).0 < f
      → PrintsPlain p
      → ((g : GoError) → (pending decode c.rdr).1 ≡ some g → Avoids b'%' (p.render (text_of g)))
      → let (recs, end) = pending decode c.rdr in
        (s : Option (ArrayStream Schema Rec)) × (pull p decode f (live c)
          ≡ some (recs, errno_after end, s))
        × TellsEnd end s
  unfolding maybe_error
  pull-pending f c h plain no_verb =
      let (last, same, d) = pull-PulledTo f c h in
      let (code, told) =
        maybe_error_by-TellsEnd (record c { rdr = last }) last.error plain
          (λ g e. no_verb g (sym same ∙ e)) in
      let c' = (maybe_error_by p (record c { rdr = last }) last.error).0 in
      (
        live c',
        d ∙ ap (λ e. some ((pending decode c.rdr).0, e, live c')) (code ∙ ap errno_after same),
        subst (λ o. TellsEnd o (live c')) same told,
      )
