-- ===== src/Connect/Reader/Delivery.antt =====
-- What a reader delivers: the records of all batches in order, up to the end or the first error.
pub mod Steps
pub mod Loops
use adbc_driver_spark.Base.{
  ℕ, zero, suc, ◌≤◌, ◌<◌, Bool, true, false, ◌≡◌, inl, inr, refl, sym, ap, ap₂, subst, if_true,
  if_false, ◌∙◌, Option, none, some, List, [], ◌∷◌, ◌++◌, Result, ok, err, arith, leb,
  if◌then◌else◌, length, get_elem?, drop, Option-cases, Bool-cases,
}
use adbc_driver_spark.Base.Text.{Text, codes}
use adbc_driver_spark.Adbc.{GoError, wrap, other}
use adbc_driver_spark.Connect.Errors.{wrapped}
use adbc_driver_spark.Connect.Reader.{
  Stream, eof, failed, message, IpcEnd, Ipc, refused, payload, Reader, is_none, to_list, or_else,
  remember, decode_end, decode_ipc, deliver, take_batch, fill_from, fill, release_cur, advance,
  prepend, next_loop, next, fresh, finish_new, new_result_reader, drain,
}

abbrev pub and_then :
    {Rec : Type 0}
    → Result GoError (List Rec)
    → List Rec × Option GoError
    → List Rec × Option GoError
and_then (err e) later = ([], some e)
and_then (ok recs) later = (recs ++ later.0, later.1)

module _ {Schema Rec : Type 0} where
  -- The records of one IPC payload, or why it cannot be used.
  abbrev pub payload_records : Ipc Schema Rec → Result GoError (List Rec)
  payload_records (refused m) = err (other (wrap (codes "spark connect: decode arrow batch: %w") m))
  payload_records (payload s recs IpcEnd.no_error) = ok recs
  payload_records (payload s recs IpcEnd.at_eof) = ok recs
  payload_records (payload s recs (IpcEnd.broken m)) =
      err (other (wrap (codes "spark connect: read arrow batch: %w") m))

module _ {Schema Rec : Type 0} (decode : Text → Ipc Schema Rec) where
  abbrev pub batch_records : Option Text → Result GoError (List Rec)
  batch_records none = ok []
  batch_records (some []) = ok []
  batch_records (some (b ∷ bs)) = payload_records (decode (b ∷ bs))

  -- The content of a stream: its records in order, and the error at which it stops.
  abbrev pub contents : Stream → List Rec × Option GoError
  contents eof = ([], none)
  contents (failed e) = ([], some (wrapped e))
  contents (message m rest) = and_then (batch_records m.batch) (contents rest)

  -- What a reader has still to deliver.
  abbrev pub pending : Reader Schema Rec → List Rec × Option GoError
  pending r = elim r.error [
    | some e ↦ ([], some e)
    | none ↦
        if r.done
        then (drop r.buf_pos r.buf, none)
        else (drop r.buf_pos r.buf ++ (contents r.stream).0, (contents r.stream).1)
  ]

  record Idle (r : Reader Schema Rec) : Type 0 where
    no_buf : r.buf ≡ []
    at_start : r.buf_pos ≡ 0
    no_error : r.error ≡ none
    running : r.done ≡ false

  -- After a fill: the end, or records.
  data Filled (content : List Rec × Option GoError) (r : Reader Schema Rec) : Type 0 where
    ended : r.done ≡ true → r.buf ≡ [] → r.buf_pos ≡ 0 → content ≡ ([], r.error) → Filled content r
    more :
        (x : Rec) (xs : List Rec)
        → r.done ≡ false
        → r.buf ≡ x ∷ xs
        → r.buf_pos ≡ 0
        → r.error ≡ none
        → content ≡ ((x ∷ xs) ++ (contents r.stream).0, (contents r.stream).1)
        → Filled content r

  Idle-decoded :
      (r : Reader Schema Rec) {sch : Option Schema} {recs : List Rec}
      → Idle r
      → Idle (record r { schema = sch; retained = recs })
  Idle-decoded r i = record {
    no_buf = i.no_buf;
    at_start = i.at_start;
    no_error = i.no_error;
    running = i.running;
  }

  deliver-Filled :
      (rest : Stream) (r : Reader Schema Rec) (ipc : Ipc Schema Rec)
      → ((r' : Reader Schema Rec) → Idle r' → Filled (contents rest) (fill_from decode rest r'))
      → r.stream ≡ rest
      → Idle r
      → Filled
          (and_then (payload_records ipc) (contents rest))
          (deliver (fill_from decode rest) (decode_ipc r ipc))
  unfolding deliver decode_ipc decode_end
  deliver-Filled rest r (refused m) ih s i = ended refl i.no_buf i.at_start refl
  deliver-Filled rest r (payload sch [] IpcEnd.no_error) ih s i = ih _ (Idle-decoded r i)
  deliver-Filled rest r (payload sch (x ∷ xs) IpcEnd.no_error) ih s i =
      more x xs i.running refl refl i.no_error (rw s)
  deliver-Filled rest r (payload sch [] IpcEnd.at_eof) ih s i = ih _ (Idle-decoded r i)
  deliver-Filled rest r (payload sch (x ∷ xs) IpcEnd.at_eof) ih s i =
      more x xs i.running refl refl i.no_error (rw s)
  deliver-Filled rest r (payload sch recs (IpcEnd.broken m)) ih s i =
      ended refl i.no_buf i.at_start refl

  take_batch-Filled :
      (rest : Stream) (r : Reader Schema Rec) (batch : Option Text)
      → ((r' : Reader Schema Rec) → Idle r' → Filled (contents rest) (fill_from decode rest r'))
      → r.stream ≡ rest
      → Idle r
      → Filled
          (and_then (batch_records batch) (contents rest))
          (take_batch decode (fill_from decode rest) r batch)
  unfolding take_batch
  take_batch-Filled rest r none ih s i = ih r i
  take_batch-Filled rest r (some []) ih s i = ih r i
  take_batch-Filled rest r (some (b ∷ bs)) ih s i = deliver-Filled rest r (decode (b ∷ bs)) ih s i

  fill_from-Filled :
      (s : Stream) (r : Reader Schema Rec) → Idle r → Filled (contents s) (fill_from decode s r)
  unfolding fill_from
  fill_from-Filled eof r i = ended refl i.no_buf i.at_start (rw i.no_error)
  fill_from-Filled (failed e) r i = ended refl i.no_buf i.at_start refl
  fill_from-Filled (message m rest) r i =
      take_batch-Filled rest
        (record r { stream = rest; server_session = remember m.server_session r.server_session })
        m.batch (fill_from-Filled rest) refl
        (record {
          no_buf = i.no_buf;
          at_start = i.at_start;
          no_error = i.no_error;
          running = i.running;
        })

  pending_running :
      (r : Reader Schema Rec)
      → r.error ≡ none
      → r.done ≡ false
      → pending r ≡ (drop r.buf_pos r.buf ++ (contents r.stream).0, (contents r.stream).1)
  pending_running r e d = rw (e, d)

  pending_done :
      (r : Reader Schema Rec)
      → r.error ≡ none
      → r.done ≡ true
      → pending r ≡ (drop r.buf_pos r.buf, none)
  pending_done r e d = rw (e, d)

  done_pending :
      (r : Reader Schema Rec)
      → r.error ≡ none
      → r.done ≡ true
      → r.buf ≡ []
      → r.buf_pos ≡ 0
      → pending r ≡ ([], r.error)
  done_pending r e d b p = pending_done r e d ∙ ap₂ (λ a x. (a, x)) (ap₂ drop p b) (sym e)

  Filled-pending :
      {content : List Rec × Option GoError} (r : Reader Schema Rec)
      → Filled content r
      → r.error ≡ none
      → pending r ≡ content
  Filled-pending r (ended d b p c) e = done_pending r e d b p ∙ sym c
  Filled-pending r (more x xs d b p _ c) e =
      pending_running r e d
      ∙ ap (λ l. (l ++ (contents r.stream).0, (contents r.stream).1)) (ap₂ drop p b)
      ∙ sym c

  Filled-error :
      {content : List Rec × Option GoError} (r : Reader Schema Rec) {x : GoError}
      → Filled content r
      → r.error ≡ some x
      → content ≡ ([], some x)
  Filled-error r (ended d b p c) e = c ∙ ap (λ o. ([], o)) e
  Filled-error r (more x xs d b p n c) e = cc
