-- ===== src/Connect/Reader/Counts.antt =====
-- The reference count of a reader and the cancellation of its stream.
use adbc_driver_spark.Base.{
  ℕ, zero, suc, Bool, true, ◌≡◌, refl, ap, subst, ◌∙◌, Option, none, some, [], ◌++◌, ◌∷◌, leb,
  if◌then◌else◌, length, get_elem?, append-nil, Option-cases, inl, inr,
}
use adbc_driver_spark.Base.Int.{ℤ, pos}
use adbc_driver_spark.Base.Text.{Text}
use adbc_driver_spark.Adbc.{GoError}
use adbc_driver_spark.Connect.Reader.{
  Stream, eof, failed, message, IpcEnd, Ipc, refused, payload, Reader, is_none, decode_ipc,
  decode_end, deliver, take_batch, fill_from, fill, release_cur, advance, next_loop, next, fresh,
  new_result_reader, release, finish_new,
}
use adbc_driver_spark.Connect.Reader.Account.{
  After, After-if, IsBalanced, fill_from-IsBalanced, release-IsBalanced, release_lem,
}

module _ {Schema Rec : Type 0} where
  -- The count, whether the stream can be cancelled, and how often it was.
  abbrev pub counts : Reader Schema Rec → ℤ × Bool × ℕ
  counts r = (r.ref_count, r.has_cancel, r.cancels)

  deliver-counts :
      (onward : Reader Schema Rec → Reader Schema Rec) (r : Reader Schema Rec)
      (ipc : Ipc Schema Rec)
      → ((r' : Reader Schema Rec) → counts (onward r') ≡ counts r')
      → counts (deliver onward (decode_ipc r ipc)) ≡ counts r
  unfolding deliver decode_ipc decode_end
  deliver-counts onward r (refused m) ih = refl
  deliver-counts onward r (payload s [] IpcEnd.no_error) ih = ih _
  deliver-counts onward r (payload s (x ∷ xs) IpcEnd.no_error) ih = refl
  deliver-counts onward r (payload s [] IpcEnd.at_eof) ih = ih _
  deliver-counts onward r (payload s (x ∷ xs) IpcEnd.at_eof) ih = refl
  deliver-counts onward r (payload s recs (IpcEnd.broken m)) ih = refl

module _ {Schema Rec : Type 0} (decode : Text → Ipc Schema Rec) where
  take_batch-counts :
      (onward : Reader Schema Rec → Reader Schema Rec) (r : Reader Schema Rec) (batch : Option Text)
      → ((r' : Reader Schema Rec) → counts (onward r') ≡ counts r')
      → counts (take_batch decode onward r batch) ≡ counts r
  unfolding take_batch
  take_batch-counts onward r none ih = ih r
  take_batch-counts onward r (some []) ih = ih r
  take_batch-counts onward r (some (b ∷ bs)) ih = deliver-counts onward r (decode (b ∷ bs)) ih

  fill_from-counts : (s : Stream) (r : Reader Schema Rec) → counts (fill_from decode s r) ≡ counts r
  unfolding fill_from
  fill_from-counts eof r = refl
  fill_from-counts (failed e) r = refl
  fill_from-counts (message m rest) r =
      take_batch-counts (fill_from decode rest) _ m.batch (fill_from-counts rest)

  advance-counts : (r : Reader Schema Rec) → After decode (λ r'. counts r' ≡ counts r) (advance r)
  unfolding advance
  advance-counts r = elim (Option-cases (get_elem? r.buf r.buf_pos)) [
    | inl e ↦ rw (e, advance) tt
    | inr (x, e) ↦ rw (e, advance) refl
  ]

  next_loop-counts :
      (f : ℕ) (r : Reader Schema Rec) (z : ℤ × Bool × ℕ)
      → counts r ≡ z
      → After decode (λ r'. counts r' ≡ z) (next_loop decode f r)
  unfolding next_loop fill
  next_loop-counts zero r z h = tt
  next_loop-counts (suc f) r z h =
      let start = record r { buf = []; buf_pos = 0 } in
      let filled = fill_from decode r.stream start in
      let kept : counts filled ≡ z = fill_from-counts r.stream start ∙ h in
      After-if decode (λ r'. counts r' ≡ z) (leb (length r.buf) r.buf_pos) _ _
        (λ _.
          After-if decode (λ r'. counts r' ≡ z) r.done _ _ (λ _. h)
            (λ _.
              After-if decode (λ r'. counts r' ≡ z) (is_none filled.error) _ _
                (λ _. next_loop-counts f filled z kept) (λ _. kept)))
        (λ _. subst (λ w. After decode (λ r'. counts r' ≡ w) (advance r)) h (advance-counts r))

  pub next-counts :
      (r : Reader Schema Rec) → After decode (λ r'. counts r' ≡ counts r) (next decode r)
  unfolding next release_cur
  next-counts r =
      After-if decode (λ r'. counts r' ≡ counts r) (is_none r.error) _ _
        (λ _. next_loop-counts 2 (release_cur r) (counts r) refl) (λ _. refl)

  -- A reader that one user has, with its stream running.
  pub record IsHeld (r : Reader Schema Rec) : Type 0 where
    pub balance : IsBalanced r
    pub count : counts r ≡ (pos 1, true, 0)

  -- A reader that is through: every record is released, and the stream was cancelled once.
  pub record IsThrough (r : Reader Schema Rec) : Type 0 where
    pub balance : r.retained ≡ r.released
    pub cancelled : r.cancels ≡ 1

  pub release-IsThrough : (r : Reader Schema Rec) → IsHeld r → IsThrough (release r)
  release-IsThrough r h =
      let (none_held, cancelled) = (release_lem r).0 (ap (λ z. z.0) h.count) in
      record {
        balance =
            release-IsBalanced decode r h.balance
            ∙ ap (λ l. (release r).released ++ l) none_held
            ∙ append-nil _;
        cancelled = cancelled ∙ ap (λ (z : ℤ × Bool × ℕ). if z.1 then suc z.2 else z.2) h.count;
      }

  -- What `newResultReader` leaves: a reader for the caller, or one that is through.
  abbrev pub HeldOrThrough : Reader Schema Rec × Option GoError → Type 0
  HeldOrThrough (r, none) = IsHeld r
  HeldOrThrough (r, some e) = IsThrough r

  finish_new-HeldOrThrough :
      (empty : Schema) (r : Reader Schema Rec) (o : Option GoError)
      → IsHeld r
      → HeldOrThrough (finish_new empty r o)
  unfolding finish_new
  finish_new-HeldOrThrough empty r none h = record { balance = h.balance; count = h.count }
  finish_new-HeldOrThrough empty r (some e) h = release-IsThrough r h

  pub new_result_reader-HeldOrThrough :
      (empty : Schema) (stream : Stream) (session : Text)
      → HeldOrThrough (new_result_reader decode empty stream session)
  unfolding new_result_reader fill
  new_result_reader-HeldOrThrough empty stream session =
      let r = fill_from decode stream (fresh stream session) in
      finish_new-HeldOrThrough empty r r.error (record {
        balance = fill_from-IsBalanced decode stream session;
        count = fill_from-counts stream (fresh stream session);
      })
