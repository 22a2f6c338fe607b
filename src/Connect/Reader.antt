-- ===== src/Connect/Reader.antt =====
-- internal/sparkconnect/result_reader.go: `resultReader` over one ExecutePlan stream. The gRPC stream
-- is the sequence of what its `Recv` returns, and Arrow's IPC decoder is the parameter `decode`.
-- `retained`, `released` and `cancels` record the calls of Retain and Release on Arrow records and
-- of the stream's cancel function, in order.
pub mod Account
pub mod Counts
pub mod Delivery
pub mod SchemaCapture
use adbc_driver_spark.Base.{
  ℕ, zero, suc, ◌+◌, ◌-◌, Bool, true, false, ◌&&◌, ◌||◌, Option, none, some, List, [], ◌∷◌, ◌++◌,
  Result, ok, err, leb, ◌==◌, if◌then◌else◌, length, get_elem?, drop, is_nil,
}
use adbc_driver_spark.Base.Text.{Text, codes}
use adbc_driver_spark.Base.Int.{ℤ, pos, negsuc}
use adbc_driver_spark.Adbc.{Message, wrap, GoError, other}
use adbc_driver_spark.Connect.Errors.{GrpcError, wrapped}

-- connect.ExecutePlanResponse: the session id, and the data of the ArrowBatch if it is one.
pub record Response : Type 0 where
  pub server_session : Text
  pub batch : Option Text

-- What `Recv` returns, call by call, up to the end of the stream or an error.
pub data Stream : Type 0 where
  eof : Stream
  failed : GrpcError → Stream
  message : Response → Stream → Stream

-- How an IPC reader ends: no error, io.EOF, or another error.
pub data IpcEnd : Type 0 where
  no_error at_eof : IpcEnd
  broken : Message → IpcEnd

-- An IPC payload: refused by ipc.NewReader, or a schema with the records in order.
pub data Ipc (Schema Rec : Type 0) : Type 0 where
  refused : Message → Ipc Schema Rec
  payload : Schema → List Rec → IpcEnd → Ipc Schema Rec

pub record Reader (Schema Rec : Type 0) : Type 0 where
  pub ref_count : ℤ
  pub schema : Option Schema
  pub stream : Stream
  pub has_cancel : Bool
  pub buf : List Rec
  pub buf_pos : ℕ
  pub cur : Option Rec
  pub error : Option GoError
  pub done : Bool
  -- the client's `serverSessionID`, which every reader of the client writes
  pub server_session : Text
  pub retained : List Rec
  pub released : List Rec
  pub cancels : ℕ

-- `rememberServerSession`
unfoldable pub remember : Text → Text → Text
remember id old = if is_nil id then old else id

abbrev pub succ_ℤ : ℤ → ℤ
succ_ℤ (pos n) = pos (suc n)
succ_ℤ (negsuc zero) = pos zero
succ_ℤ (negsuc (suc n)) = negsuc n

abbrev pub pred_ℤ : ℤ → ℤ
pred_ℤ (pos zero) = negsuc zero
pred_ℤ (pos (suc n)) = pos n
pred_ℤ (negsuc n) = negsuc (suc n)

abbrev pub is_zero : ℤ → Bool
is_zero (pos zero) = true
is_zero (pos (suc n)) = false
is_zero (negsuc n) = false

abbrev pub is_none {ℓ} : {A : Type ℓ} → Option A → Bool
is_none none = true
is_none (some _) = false

abbrev pub to_list {ℓ} : {A : Type ℓ} → Option A → List A
to_list none = []
to_list (some a) = a ∷ []

abbrev pub or_else {ℓ} : {A : Type ℓ} → Option A → A → Option A
or_else none b = some b
or_else (some a) b = some a

module _ {Schema Rec : Type 0} where
  -- The end of `decodeIPC`: on an error the records are released again.
  unfoldable pub decode_end :
      Reader Schema Rec → List Rec → IpcEnd → Reader Schema Rec × Result GoError (List Rec)
  decode_end r recs IpcEnd.no_error = (r, ok recs)
  decode_end r recs IpcEnd.at_eof = (r, ok recs)
  decode_end r recs (IpcEnd.broken m) = (
    record r { released = r.released ++ recs },
    err (other (wrap (codes "spark connect: read arrow batch: %w") m)),
  )

  -- `decodeIPC` on what the decoder makes of the data.
  unfoldable pub decode_ipc :
      Reader Schema Rec → Ipc Schema Rec → Reader Schema Rec × Result GoError (List Rec)
  unfolding decode_end
  decode_ipc r (refused m) =
      (r, err (other (wrap (codes "spark connect: decode arrow batch: %w") m)))
  decode_ipc r (payload s recs end) =
      decode_end (record r { schema = or_else r.schema s; retained = r.retained ++ recs }) recs end

  -- What the loop of `fill` does with the decoded records; `onward` is its next round.
  unfoldable pub deliver :
      (Reader Schema Rec → Reader Schema Rec)
      → Reader Schema Rec × Result GoError (List Rec)
      → Reader Schema Rec
  deliver onward (r, err e) = record r { error = some e; done = true }
  deliver onward (r, ok []) = onward r
  deliver onward (r, ok (x ∷ xs)) = record r { buf = x ∷ xs; buf_pos = 0 }

  module _ (decode : Text → Ipc Schema Rec) where
    -- The batch of one response: other messages and empty batches are skipped.
    unfoldable pub take_batch :
        (Reader Schema Rec → Reader Schema Rec)
        → Reader Schema Rec
        → Option Text
        → Reader Schema Rec
    unfolding decode_ipc deliver
    take_batch onward r none = onward r
    take_batch onward r (some []) = onward r
    take_batch onward r (some (b ∷ bs)) = deliver onward (decode_ipc r (decode (b ∷ bs)))

    -- The loop of `fill`, on the stream that is left.
    unfoldable pub fill_from : Stream → Reader Schema Rec → Reader Schema Rec
    unfolding take_batch remember
    fill_from eof r = record r { stream = eof; done = true }
    fill_from (failed e) r = record r { stream = failed e; error = some (wrapped e); done = true }
    fill_from (message m rest) r =
        take_batch (fill_from rest)
          (record r { stream = rest; server_session = remember m.server_session r.server_session })
          m.batch

    unfoldable pub fill : Reader Schema Rec → Reader Schema Rec
    unfolding fill_from
    fill r = fill_from r.stream r

  -- r.cur.Release(); r.cur = nil
  unfoldable pub release_cur : Reader Schema Rec → Reader Schema Rec
  release_cur r = record r { released = r.released ++ to_list r.cur; cur = none }

  -- The end of `Next` at a record of the buffer; `none` is an index out of range.
  unfoldable pub advance : Reader Schema Rec → Option (Reader Schema Rec × Bool)
  advance r = elim (get_elem? r.buf r.buf_pos) [
    | none ↦ none
    | some rec ↦ some (record r { cur = some rec; buf_pos = suc r.buf_pos }, true)
  ]

  module _ (decode : Text → Ipc Schema Rec) where
    -- The loop of `Next`; `none` also where the fuel ran out.
    unfoldable pub next_loop : ℕ → Reader Schema Rec → Option (Reader Schema Rec × Bool)
    unfolding fill advance
    next_loop zero r = none
    next_loop (suc f) r =
        let filled = fill decode (record r { buf = []; buf_pos = 0 }) in
        let again = next_loop f filled in
        if leb (length r.buf) r.buf_pos
        then if r.done
          then some (r, false)
          else if is_none filled.error
          then again
          else some (filled, false)
        else advance r

    -- A fill leaves records in the buffer or ends the stream, so that two rounds are enough.
    unfoldable pub next : Reader Schema Rec → Option (Reader Schema Rec × Bool)
    unfolding next_loop release_cur
    next r = let r' = release_cur r in if is_none r'.error then next_loop 2 r' else some (r', false)

  unfoldable pub retain : Reader Schema Rec → Reader Schema Rec
  retain r = record r { ref_count = succ_ℤ r.ref_count }

  -- The end of `Release`, at a count of zero.
  unfoldable pub release_all : Reader Schema Rec → Reader Schema Rec
  release_all r = record r {
    released = r.released ++ (to_list r.cur ++ drop r.buf_pos r.buf);
    cur = none;
    buf = [];
    cancels = if r.has_cancel then r.cancels + 1 else r.cancels;
    has_cancel = false;
  }

  unfoldable pub release : Reader Schema Rec → Reader Schema Rec
  unfolding release_all
  release r =
      let r' = record r { ref_count = pred_ℤ r.ref_count } in
      if is_zero r'.ref_count then release_all r' else r'

  -- The reader before its first batch.
  abbrev pub fresh : Stream → Text → Reader Schema Rec
  fresh stream session = record {
    ref_count = pos 1;
    schema = none;
    stream = stream;
    has_cancel = true;
    buf = [];
    buf_pos = 0;
    cur = none;
    error = none;
    done = false;
    server_session = session;
    retained = [];
    released = [];
    cancels = 0;
  }

  -- The end of `newResultReader`, by the error of the first fill. `empty` is the schema with no
  -- columns.
  unfoldable pub finish_new :
      Schema → Reader Schema Rec → Option GoError → Reader Schema Rec × Option GoError
  unfolding release
  finish_new empty r none = (record r { schema = or_else r.schema empty }, none)
  finish_new empty r (some e) = (release r, some e)

  -- `newResultReader`: the reader, and the error with which it is released and nil is returned.
  unfoldable pub new_result_reader :
      (Text → Ipc Schema Rec) → Schema → Stream → Text → Reader Schema Rec × Option GoError
  unfolding fill finish_new
  new_result_reader decode empty stream session =
      let r = fill decode (fresh stream session) in finish_new empty r r.error

  abbrev pub prepend :
      List Rec → Option (List Rec × Reader Schema Rec) → Option (List Rec × Reader Schema Rec)
  prepend recs none = none
  prepend recs (some (later, last)) = some (recs ++ later, last)

  -- `for r.Next() { … r.RecordBatch() … }`: the records in order and the reader after the loop.
  -- `none` is a panic, or fuel that ran out.
  unfoldable pub drain :
      (Text → Ipc Schema Rec) → ℕ → Reader Schema Rec → Option (List Rec × Reader Schema Rec)
  unfolding next
  drain decode zero r = none
  drain decode (suc f) r = elim (next decode r) [
    | none ↦ none
    | some (r', false) ↦ some ([], r')
    | some (r', true) ↦ prepend (to_list r'.cur) (drain decode f r')
  ]
