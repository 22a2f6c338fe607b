-- ===== src/Connect/Reader/SchemaCapture.antt =====
-- The schema of a reader is that of the first payload which the decoder accepts, known before the
-- first `Next` and never replaced.
use adbc_driver_spark.Base.{◌≡◌, refl, sym, ap, ◌∙◌, Option, none, some, [], ◌∷◌}
use adbc_driver_spark.Base.Text.{Text}
use adbc_driver_spark.Adbc.{GoError}
use adbc_driver_spark.Connect.Reader.{
  Stream, eof, failed, message, IpcEnd, Ipc, refused, payload, Reader, or_else, decode_end,
  decode_ipc, deliver, take_batch, fill_from, fill, fresh, finish_new, new_result_reader,
}

-- The schema in hand, or else the other one.
abbrev pub first_of_two : {S : Type 0} → Option S → Option S → Option S
first_of_two none later = later
first_of_two (some s) later = some s

module _ {Schema Rec : Type 0} (decode : Text → Ipc Schema Rec) where
  abbrev pub payload_schema : Ipc Schema Rec → Option Schema → Option Schema
  payload_schema (refused m) later = none
  payload_schema (payload s recs end) later = some s

  abbrev pub batch_schema : Option Text → Option Schema → Option Schema
  batch_schema none later = later
  batch_schema (some []) later = later
  batch_schema (some (b ∷ bs)) later = payload_schema (decode (b ∷ bs)) later

  -- The first schema of a stream, before anything that ends the stream.
  abbrev pub first_schema : Stream → Option Schema
  first_schema eof = none
  first_schema (failed e) = none
  first_schema (message m rest) = batch_schema m.batch (first_schema rest)

  first_of_two-or_else :
      (o : Option Schema) (s : Schema) (later : Option Schema)
      → first_of_two (or_else o s) later ≡ first_of_two o (some s)
  first_of_two-or_else none s later = refl
  first_of_two-or_else (some _) s later = refl

  or_else-first_of_two : (o : Option Schema) (s : Schema) → or_else o s ≡ first_of_two o (some s)
  or_else-first_of_two none s = refl
  or_else-first_of_two (some _) s = refl

  first_of_two-none : (o : Option Schema) → o ≡ first_of_two o none
  first_of_two-none none = refl
  first_of_two-none (some _) = refl

  module _ (onward : Reader Schema Rec → Reader Schema Rec) (later : Option Schema)
      (ih : (r : Reader Schema Rec) → (onward r).schema ≡ first_of_two r.schema later) where
    decoded-schema :
        (r : Reader Schema Rec) (ipc : Ipc Schema Rec)
        → (deliver onward (decode_ipc r ipc)).schema
          ≡ first_of_two r.schema (payload_schema ipc later)
    unfolding deliver decode_ipc decode_end
    decoded-schema r (refused m) = first_of_two-none r.schema
    decoded-schema r (payload s [] IpcEnd.no_error) = ih _ ∙ first_of_two-or_else r.schema s later
    decoded-schema r (payload s (x ∷ xs) IpcEnd.no_error) = or_else-first_of_two r.schema s
    decoded-schema r (payload s [] IpcEnd.at_eof) = ih _ ∙ first_of_two-or_else r.schema s later
    decoded-schema r (payload s (x ∷ xs) IpcEnd.at_eof) = or_else-first_of_two r.schema s
    decoded-schema r (payload s recs (IpcEnd.broken m)) = or_else-first_of_two r.schema s

    take_batch-schema :
        (r : Reader Schema Rec) (batch : Option Text)
        → (take_batch decode onward r batch).schema
          ≡ first_of_two r.schema (batch_schema batch later)
    unfolding take_batch
    take_batch-schema r none = ih r
    take_batch-schema r (some []) = ih r
    take_batch-schema r (some (b ∷ bs)) = decoded-schema r (decode (b ∷ bs))

  pub fill_from-schema :
      (s : Stream) (r : Reader Schema Rec)
      → (fill_from decode s r).schema ≡ first_of_two r.schema (first_schema s)
  unfolding fill_from
  fill_from-schema eof r = first_of_two-none r.schema
  fill_from-schema (failed e) r = first_of_two-none r.schema
  fill_from-schema (message m rest) r =
      take_batch-schema (fill_from decode rest) (first_schema rest) (fill_from-schema rest) _
        m.batch

  finish_new-schema :
      (empty : Schema) (r : Reader Schema Rec) (o : Option GoError) {r' : Reader Schema Rec}
      → finish_new empty r o ≡ (r', none)
      → r'.schema ≡ or_else r.schema empty
  unfolding finish_new
  finish_new-schema empty r none e = ap (λ p. p.0.schema) (sym e)
  finish_new-schema empty r (some x) e = absurd (some-ne-none (ap (λ p. p.1) e))
    where
      some-ne-none : some x ≡ none → ⊥
      some-ne-none h = cc

  -- A new reader without an error has the schema of the first accepted payload of its stream, or the
  -- schema with no columns if there is none.
  pub new_result_reader-schema :
      (empty : Schema) (stream : Stream) (session : Text) {r : Reader Schema Rec}
      → new_result_reader decode empty stream session ≡ (r, none)
      → r.schema ≡ or_else (first_schema stream) empty
  unfolding new_result_reader fill
  new_result_reader-schema empty stream session e =
      finish_new-schema empty (fill_from decode stream (fresh stream session)) _ e
      ∙ ap (λ o. or_else o empty) (fill_from-schema stream (fresh stream session))
