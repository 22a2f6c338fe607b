-- ===== src/Export/Streams/Life.antt =====
-- The life of an exported stream: what becomes of the records and of the gRPC stream behind it.
use adbc_driver_spark.Base.{
  Bool, true, false, ◌≡◌, refl, sym, ap, subst, ◌∙◌, Option, none, some, List, [], ◌∷◌,
}
use adbc_driver_spark.Base.Int.{pos}
use adbc_driver_spark.Base.Text.{Text}
use adbc_driver_spark.Adbc.{GoError}
use adbc_driver_spark.Connect.Reader.{
  Stream, Ipc, Reader, next, retain, release, new_result_reader, pred_ℤ, succ_ℤ,
}
use adbc_driver_spark.Connect.Reader.Account.{After, IsBalanced, release_lem, next-IsBalanced}
use adbc_driver_spark.Connect.Reader.Counts.{
  counts, next-counts, IsHeld, IsThrough, release-IsThrough, new_result_reader-HeldOrThrough,
  HeldOrThrough,
}
use adbc_driver_spark.Export.Errors.{Printer}
use adbc_driver_spark.Export.Streams.{
  Errno, einval, Out, untouched, CArrayStream, ArrayStream, maybe_error, maybe_error_by, next_out,
  export_record, stored_next, schema_out, get_next, get_schema, stream_release, hand_over,
  export_record_reader,
}
use adbc_driver_spark.Export.Streams.Delivery.{live}

-- The calls that change an exported stream.
pub data StreamCall : Type 0 where
  call_get_next call_get_schema : StreamCall

module _ {Schema Rec : Type 0} where
  -- The stream after a call of `get_next`, which never panics (`Delivery`).
  abbrev pub after_get :
      Option (ArrayStream Schema Rec)
      → Option (Option (ArrayStream Schema Rec) × Out Rec × Errno)
      → Option (ArrayStream Schema Rec)
  after_get s none = s
  after_get s (some (s', _, _)) = s'

  abbrev pub run_stream_call :
      Printer
      → (Text → Ipc Schema Rec)
      → Option (ArrayStream Schema Rec)
      → StreamCall
      → Option (ArrayStream Schema Rec)
  run_stream_call p decode s call_get_next = after_get s (get_next p decode s)
  run_stream_call p decode s call_get_schema = (get_schema p s).0

  abbrev pub run_stream_calls :
      Printer
      → (Text → Ipc Schema Rec)
      → Option (ArrayStream Schema Rec)
      → List StreamCall
      → Option (ArrayStream Schema Rec)
  run_stream_calls p decode s [] = s
  run_stream_calls p decode s (c ∷ cs) = run_stream_calls p decode (run_stream_call p decode s c) cs

  -- A stream of the driver in use.
  abbrev IsLive : (Text → Ipc Schema Rec) → Option (ArrayStream Schema Rec) → Type 0
  IsLive decode s = (c : CArrayStream Schema Rec) × (s ≡ live c) × IsHeld decode c.rdr

  -- The exporting function gives up its own count.
  pub release-retain :
      (r : Reader Schema Rec)
      → r.ref_count ≡ pos 1
      → release (retain r) ≡ record r { ref_count = pos 1 }
  unfolding retain
  release-retain r e =
      (release_lem (retain r)).1 (λ e'. two≢one (ap (λ z. succ_ℤ z) (sym e) ∙ e'))
      ∙ ap (λ z. record r { ref_count = pred_ℤ (succ_ℤ z) }) e
    where
      two≢one : pos 2 ≡ pos 1 → ⊥
      two≢one e = cc

module _ {Schema Rec : Type 0} (p : Printer) (decode : Text → Ipc Schema Rec) where
  maybe_error-rdr : (c : CArrayStream Schema Rec) → (maybe_error p c).0.rdr ≡ c.rdr
  unfolding maybe_error
  maybe_error-rdr c = by_error c.rdr.error
    where
      by_error : (o : Option GoError) → (maybe_error_by p c o).0.rdr ≡ c.rdr
      by_error none = refl
      by_error (some g) = refl

  export_record-IsLive :
      (c d : CArrayStream Schema Rec) (o : Option Rec)
      → IsHeld decode c.rdr
      → IsHeld decode d.rdr
      → IsLive decode (after_get (live d) (stored_next (live d) (export_record c o)))
  export_record-IsLive c d none h k = (d, refl, k)
  export_record-IsLive c d (some x) h k = (c, refl, h)

  next_out-IsLive :
      (c : CArrayStream Schema Rec) (o : Option (Reader Schema Rec × Bool))
      → IsHeld decode c.rdr
      → After decode (IsHeld decode) o
      → IsLive decode (after_get (live c) (stored_next (live c) (next_out p c o)))
  next_out-IsLive c none k h = (c, refl, k)
  next_out-IsLive c (some (r, true)) k h = export_record-IsLive (record c { rdr = r }) c r.cur h k
  next_out-IsLive c (some (r, false)) k h = (
    (maybe_error p (record c { rdr = r })).0,
    refl,
    subst (IsHeld decode) (sym (maybe_error-rdr (record c { rdr = r }))) h,
  )

  both_After :
      (r : Reader Schema Rec) (o : Option (Reader Schema Rec × Bool))
      → IsHeld decode r
      → After decode IsBalanced o
      → After decode (λ r'. counts r' ≡ counts r) o
      → After decode (IsHeld decode) o
  both_After r none k b c = tt
  both_After r (some (r', more)) k b c = record { balance = b; count = c ∙ k.count }

  schema_out-IsLive :
      (c : CArrayStream Schema Rec) (o : Option Schema)
      → IsHeld decode c.rdr
      → IsHeld decode (schema_out p c o).0.rdr
  schema_out-IsLive c none h = subst (IsHeld decode) (sym (maybe_error-rdr c)) h
  schema_out-IsLive c (some s) h = h

  run_stream_calls-IsLive :
      (cs : List StreamCall) (c : CArrayStream Schema Rec)
      → IsHeld decode c.rdr
      → IsLive decode (run_stream_calls p decode (live c) cs)
  unfolding get_next get_schema
  run_stream_calls-IsLive [] c h = (c, refl, h)
  run_stream_calls-IsLive (call_get_next ∷ cs) c h =
      let (c', e, h') = next_out-IsLive c (next decode c.rdr) h (
        both_After c.rdr (next decode c.rdr) h (next-IsBalanced decode c.rdr h.balance)
          (next-counts decode c.rdr)) in
      subst (λ s. IsLive decode (run_stream_calls p decode s cs)) (sym e)
        (run_stream_calls-IsLive cs c' h')
  run_stream_calls-IsLive (call_get_schema ∷ cs) c h =
      run_stream_calls-IsLive cs (schema_out p c c.rdr.schema).0
        (schema_out-IsLive c c.rdr.schema h)

  hand_over-IsLive : (r : Reader Schema Rec) → IsHeld decode r → IsLive decode (some (hand_over r))
  unfolding hand_over export_record_reader
  hand_over-IsLive r h = (
    _,
    refl,
    subst (IsHeld decode) (sym (release-retain r (ap (λ z. z.0) h.count)))
        (record { balance = h.balance; count = ap (λ z. (pos 1, z.1, z.2)) h.count }),
  )

  -- The reader at the end of its life: released by `newResultReader` on an error, and otherwise handed
  -- over to a stream, used and released by it.
  abbrev pub at_end_of_life :
      List StreamCall → Reader Schema Rec × Option GoError → Option (Reader Schema Rec)
  at_end_of_life cs (r, some e) = some r
  at_end_of_life cs (r, none) =
      (stream_release (run_stream_calls p decode (some (hand_over r)) cs)).1

  abbrev pub EndsThrough : Option (Reader Schema Rec) → Type 0
  EndsThrough none = ⊥
  EndsThrough (some r) = IsThrough decode r

  stream_release-EndsThrough :
      (s : Option (ArrayStream Schema Rec)) → IsLive decode s → EndsThrough (stream_release s).1
  unfolding stream_release
  stream_release-EndsThrough s (c, e, h) =
      subst (λ s'. EndsThrough (stream_release s').1) (sym e) (release-IsThrough decode c.rdr h)

  held-EndsThrough :
      (cs : List StreamCall) (o : Reader Schema Rec × Option GoError)
      → HeldOrThrough decode o
      → EndsThrough (at_end_of_life cs o)
  held-EndsThrough cs (r, some e) h = h
  held-EndsThrough cs (r, none) h =
      let (c, e, k) = hand_over-IsLive r h in
      stream_release-EndsThrough _ (
        subst (λ s. IsLive decode (run_stream_calls p decode s cs)) (sym e)
          (run_stream_calls-IsLive cs c k))

  -- A result that an exported function hands over as a stream, whatever the consumer then calls on it
  -- before its release, with whatever answers of the server: at the end every Arrow record that was
  -- retained is released, in order and once, and the gRPC stream was cancelled exactly once. This
  -- covers a result whose first batch fails.
  pub hand_over-EndsThrough :
      (empty : Schema) (stream : Stream) (session : Text) (cs : List StreamCall)
      → EndsThrough (at_end_of_life cs (new_result_reader decode empty stream session))
  hand_over-EndsThrough empty stream session cs =
      held-EndsThrough cs _ (new_result_reader-HeldOrThrough decode empty stream session)

  -- A released stream of the driver refuses: `get_next` and `get_schema` return EINVAL and leave their
  -- output alone, and a second release does nothing, so that the reader is not released twice.
  pub stream_release-refuses :
      (c : CArrayStream Schema Rec)
      → let s = (stream_release (live c)).0 in
        (get_next p decode s ≡ some (s, untouched, einval))
        × (get_schema p s ≡ (s, untouched, einval))
        × (stream_release s ≡ (s, none))
  unfolding stream_release get_next get_schema
  stream_release-refuses c = (refl, refl, refl)
