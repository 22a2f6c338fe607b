-- ===== src/Connect/Reader/Account/Calls.antt =====
-- Sequences of calls on a reader keep the account of its records.
use adbc_driver_spark.Base.{Bool, ◌≡◌, Option, none, some, List, [], ◌∷◌, ◌++◌}
use adbc_driver_spark.Base.Text.{Text}
use adbc_driver_spark.Connect.Reader.{
  Stream, Ipc, Reader, fill_from, fill, next, fresh, new_result_reader, retain, release,
}
use adbc_driver_spark.Connect.Reader.Account.{
  After, IsBalanced, held, next-IsBalanced, release-IsBalanced, finish_new-IsBalanced,
  fill_from-IsBalanced,
}

-- The calls that a caller can make on a reader.
pub data Call : Type 0 where
  call_next call_retain call_release : Call

module _ {Schema Rec : Type 0} (decode : Text → Ipc Schema Rec) where
  -- The reader after a call. `Next` never panics (`Delivery`), so the first case is not reached.
  abbrev pub after_next : Reader Schema Rec → Option (Reader Schema Rec × Bool) → Reader Schema Rec
  after_next r none = r
  after_next r (some (r', _)) = r'

  abbrev pub run_call : Reader Schema Rec → Call → Reader Schema Rec
  run_call r call_next = after_next r (next decode r)
  run_call r call_retain = retain r
  run_call r call_release = release r

  abbrev pub run_calls : Reader Schema Rec → List Call → Reader Schema Rec
  run_calls r [] = r
  run_calls r (c ∷ cs) = run_calls (run_call r c) cs

  after_next-IsBalanced :
      (r : Reader Schema Rec) (o : Option (Reader Schema Rec × Bool))
      → IsBalanced r
      → After decode IsBalanced o
      → IsBalanced (after_next r o)
  after_next-IsBalanced r none h k = h
  after_next-IsBalanced r (some (r', b)) h k = k

  run_calls-IsBalanced :
      (cs : List Call) (r : Reader Schema Rec) → IsBalanced r → IsBalanced (run_calls r cs)
  unfolding retain
  run_calls-IsBalanced [] r h = h
  run_calls-IsBalanced (call_next ∷ cs) r h =
      run_calls-IsBalanced cs _
        (after_next-IsBalanced r (next decode r) h (next-IsBalanced decode r h))
  run_calls-IsBalanced (call_retain ∷ cs) r h = run_calls-IsBalanced cs (retain r) h
  run_calls-IsBalanced (call_release ∷ cs) r h =
      run_calls-IsBalanced cs (release r) (release-IsBalanced decode r h)

  -- Whatever the stream and the sequence of `Next`, `Retain` and `Release`: the records that were
  -- retained are, in order, those that were released followed by those still held, so that none is
  -- released twice and none is lost. This covers a reader whose construction failed.
  pub run_calls-balance :
      (empty : Schema) (stream : Stream) (session : Text) (cs : List Call)
      → let r = run_calls (new_result_reader decode empty stream session).0 cs in
        r.retained ≡ r.released ++ held r
  unfolding new_result_reader fill
  run_calls-balance empty stream session cs =
      let r = fill_from decode stream (fresh stream session) in
      run_calls-IsBalanced cs _
        (finish_new-IsBalanced decode empty r r.error (fill_from-IsBalanced decode stream session))
