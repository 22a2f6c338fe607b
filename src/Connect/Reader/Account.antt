-- ===== src/Connect/Reader/Account.antt =====
-- Every Arrow record that the reader retains is released once, in order, or still held.
pub mod Calls
use adbc_driver_spark.Base.{
  ℕ, zero, suc, ◌≤◌, Bool, true, false, ◌≡◌, ◌≢◌, refl, sym, ap, ap₂, subst, ◌∙◌, Option, none,
  some, List, [], ◌∷◌, ◌++◌, ok, arith, leb, if◌then◌else◌, length, get_elem?, drop, append-nil,
  append_assoc, Bool-cases, Option-cases, if_true, if_false, inl, inr,
}
use adbc_driver_spark.Adbc.{GoError}
use adbc_driver_spark.Base.Int.{ℤ, pos, negsuc}
use adbc_driver_spark.Base.Text.{Text}
use adbc_driver_spark.Connect.Reader.{
  Stream, eof, failed, message, IpcEnd, Ipc, refused, payload, Reader, is_none, is_zero, to_list,
  or_else, pred_ℤ, decode_end, decode_ipc, deliver, take_batch, fill_from, fill, release_cur,
  advance, next_loop, next, fresh, finish_new, new_result_reader, retain, release, release_all,
}

module _ {Schema Rec : Type 0} where
  -- The records that the reader holds: the current one, and the rest of the buffer.
  abbrev pub held : Reader Schema Rec → List Rec
  held r = to_list r.cur ++ drop r.buf_pos r.buf

  -- The records retained so far are those released so far and those held, in order.
  abbrev pub IsBalanced : Reader Schema Rec → Type 0
  IsBalanced r = r.retained ≡ r.released ++ held r

  -- A reader between two records: it holds at most the buffer.
  record Between (r : Reader Schema Rec) : Type 0 where
    no_cur : r.cur ≡ none
    balance : r.retained ≡ r.released ++ drop r.buf_pos r.buf

  record Settled (r : Reader Schema Rec) : Type 0 where
    no_cur : r.cur ≡ none
    no_buf : r.buf ≡ []
    at_start : r.buf_pos ≡ 0
    balance : r.retained ≡ r.released

  Settled-Between : (r : Reader Schema Rec) → Settled r → Between r
  Settled-Between r s = record {
    no_cur = s.no_cur;
    balance =
        s.balance
        ∙ sym (append-nil r.released)
        ∙ ap (λ l. r.released ++ l) (sym (ap₂ drop s.at_start s.no_buf));
  }

  module _ (onward : Reader Schema Rec → Reader Schema Rec)
      (ih : (r : Reader Schema Rec) → Settled r → Between (onward r)) where
    deliver-Between :
        (r : Reader Schema Rec) (recs : List Rec) (s : Option Schema)
        → Settled r
        → Between (deliver onward (record r { schema = s; retained = r.retained ++ recs }, ok recs))
    unfolding deliver
    deliver-Between r [] s h = ih _ (record {
      no_cur = h.no_cur;
      no_buf = h.no_buf;
      at_start = h.at_start;
      balance = append-nil r.retained ∙ h.balance;
    })
    deliver-Between r (x ∷ xs) s h = record {
      no_cur = h.no_cur;
      balance = ap (λ l. l ++ x ∷ xs) h.balance;
    }

    decoded-Between :
        (r : Reader Schema Rec) (ipc : Ipc Schema Rec)
        → Settled r
        → Between (deliver onward (decode_ipc r ipc))
    unfolding decode_ipc decode_end
    decoded-Between r (refused m) h =
        unfold deliver in
        Settled-Between _ (record {
          no_cur = h.no_cur;
          no_buf = h.no_buf;
          at_start = h.at_start;
          balance = h.balance;
        })
    decoded-Between r (payload s recs IpcEnd.no_error) h =
        deliver-Between r recs (or_else r.schema s) h
    decoded-Between r (payload s recs IpcEnd.at_eof) h =
        deliver-Between r recs (or_else r.schema s) h
    decoded-Between r (payload s recs (IpcEnd.broken m)) h =
        unfold deliver in
        Settled-Between _ (record {
          no_cur = h.no_cur;
          no_buf = h.no_buf;
          at_start = h.at_start;
          balance = ap (λ l. l ++ recs) h.balance;
        })

module _ {Schema Rec : Type 0} (decode : Text → Ipc Schema Rec) where
  take_batch-Between :
      (onward : Reader Schema Rec → Reader Schema Rec) (r : Reader Schema Rec) (batch : Option Text)
      → ((r' : Reader Schema Rec) → Settled r' → Between (onward r'))
      → Settled r
      → Between (take_batch decode onward r batch)
  unfolding take_batch
  take_batch-Between onward r none ih h = ih r h
  take_batch-Between onward r (some []) ih h = ih r h
  take_batch-Between onward r (some (b ∷ bs)) ih h = decoded-Between onward ih r (decode (b ∷ bs)) h

  fill_from-Between :
      (s : Stream) (r : Reader Schema Rec) → Settled r → Between (fill_from decode s r)
  unfolding fill_from
  fill_from-Between eof r h =
      Settled-Between _ (record {
        no_cur = h.no_cur;
        no_buf = h.no_buf;
        at_start = h.at_start;
        balance = h.balance;
      })
  fill_from-Between (failed e) r h =
      Settled-Between _ (record {
        no_cur = h.no_cur;
        no_buf = h.no_buf;
        at_start = h.at_start;
        balance = h.balance;
      })
  fill_from-Between (message m rest) r h =
      take_batch-Between (fill_from decode rest) _ m.batch (fill_from-Between rest) (record {
        no_cur = h.no_cur;
        no_buf = h.no_buf;
        at_start = h.at_start;
        balance = h.balance;
      })

  Between-IsBalanced : (r : Reader Schema Rec) → Between r → IsBalanced r
  Between-IsBalanced r b =
      b.balance ∙ ap (λ c. r.released ++ (to_list c ++ drop r.buf_pos r.buf)) (sym b.no_cur)

  -- The first fill of a new reader.
  pub fill_from-IsBalanced :
      (stream : Stream) (session : Text)
      → IsBalanced (fill_from decode stream (fresh stream session))
  fill_from-IsBalanced stream session = Between-IsBalanced _ (
      fill_from-Between stream (fresh stream session)
        (record { no_cur = refl; no_buf = refl; at_start = refl; balance = refl }))

  -- `P` holds of the reader that a call of `Next` leaves.
  abbrev pub After : (Reader Schema Rec → Type 0) → Option (Reader Schema Rec × Bool) → Type 0
  After P none = Unit
  After P (some (r, _)) = P r

  drop-get :
      (n : ℕ) (xs : List Rec) (x : Rec) → get_elem? xs n ≡ some x → drop n xs ≡ x ∷ drop (suc n) xs
  drop-get n [] x e = cc
  drop-get zero (y ∷ ys) x e = cc
  drop-get (suc n) (y ∷ ys) x e = drop-get n ys x e

  advance-After : (r : Reader Schema Rec) → Between r → After IsBalanced (advance r)
  unfolding advance
  advance-After r b = elim (Option-cases (get_elem? r.buf r.buf_pos)) [
    | inl e ↦ rw (e, advance) tt
    | inr (x, e) ↦
        rw (e, advance) (b.balance ∙ ap (λ l. r.released ++ l) (drop-get r.buf_pos r.buf x e))
  ]

  pub After-if :
      (P : Reader Schema Rec → Type 0) (b : Bool) (x y : Option (Reader Schema Rec × Bool))
      → (b ≡ true → After P x)
      → (b ≡ false → After P y)
      → After P (if b then x else y)
  After-if P true x y f g = f refl
  After-if P false x y f g = g refl

  drop-end : (n : ℕ) (xs : List Rec) → length xs ≤ n → drop n xs ≡ []
  drop-end zero [] h = refl
  drop-end zero (x ∷ xs) h = absurd (omega arith)
  drop-end (suc n) [] h = refl
  drop-end (suc n) (x ∷ xs) h = drop-end n xs (omega arith)

  -- The buffer is thrown away only when nothing is left in it.
  emptied :
      (r : Reader Schema Rec)
      → Between r
      → length r.buf ≤ r.buf_pos
      → Settled (record r { buf = []; buf_pos = 0 })
  emptied r b h = record {
    no_cur = b.no_cur;
    no_buf = refl;
    at_start = refl;
    balance =
        b.balance ∙ ap (λ l. r.released ++ l) (drop-end r.buf_pos r.buf h) ∙ append-nil r.released;
  }

  next_loop-After :
      (f : ℕ) (r : Reader Schema Rec) → Between r → After IsBalanced (next_loop decode f r)
  unfolding next_loop fill
  next_loop-After zero r b = tt
  next_loop-After (suc f) r b =
      let start = record r { buf = []; buf_pos = 0 } in
      let filled = fill_from decode r.stream start in
      After-if IsBalanced (leb (length r.buf) r.buf_pos) _ _
        (λ over.
          let kept = fill_from-Between r.stream start (emptied r b (ground arith)) in
          After-if IsBalanced r.done _ _ (λ _. Between-IsBalanced r b)
            (λ _.
              After-if IsBalanced (is_none filled.error) _ _ (λ _. next_loop-After f filled kept)
                (λ _. Between-IsBalanced filled kept)))
        (λ _. advance-After r b)

  released_cur : (r : Reader Schema Rec) → IsBalanced r → Between (release_cur r)
  unfolding release_cur
  released_cur r h = record {
    no_cur = refl;
    balance = h ∙ sym (append_assoc r.released (to_list r.cur) (drop r.buf_pos r.buf));
  }

  pub next-IsBalanced : (r : Reader Schema Rec) → IsBalanced r → After IsBalanced (next decode r)
  unfolding next
  next-IsBalanced r h =
      let b = released_cur r h in
      After-if IsBalanced (is_none (release_cur r).error) _ _
        (λ _. next_loop-After 2 (release_cur r) b) (λ _. Between-IsBalanced (release_cur r) b)

  drop-nil : (n : ℕ) → drop {A = Rec} n [] ≡ []
  drop-nil zero = refl
  drop-nil (suc n) = refl

  release_all-IsBalanced : (r : Reader Schema Rec) → IsBalanced r → IsBalanced (release_all r)
  unfolding release_all
  release_all-IsBalanced r h =
      h ∙ sym (append-nil _) ∙ ap (λ l. (r.released ++ held r) ++ l) (sym (drop-nil r.buf_pos))

  pub release-IsBalanced : (r : Reader Schema Rec) → IsBalanced r → IsBalanced (release r)
  unfolding release
  release-IsBalanced r h = elim (Bool-cases (is_zero (pred_ℤ r.ref_count))) [
    | inl z ↦
        subst IsBalanced (sym (if_true _ _ z))
          (release_all-IsBalanced (record r { ref_count = pred_ℤ r.ref_count }) h)
    | inr z ↦ subst IsBalanced (sym (if_false _ _ z)) h
  ]

  finish_new-IsBalanced :
      (empty : Schema) (r : Reader Schema Rec) (o : Option GoError)
      → IsBalanced r
      → IsBalanced (finish_new empty r o).0
  unfolding finish_new
  finish_new-IsBalanced empty r none h = h
  finish_new-IsBalanced empty r (some e) h = release-IsBalanced r h

is_zero-pred_ℤ : (z : ℤ) → z ≢ pos 1 → is_zero (pred_ℤ z) ≡ false
is_zero-pred_ℤ (pos zero) n = refl
is_zero-pred_ℤ (pos (suc zero)) n = absurd (n refl)
is_zero-pred_ℤ (pos (suc (suc k))) n = refl
is_zero-pred_ℤ (negsuc k) n = refl

module _ {Schema Rec : Type 0} (r : Reader Schema Rec) where
  release_last : r.ref_count ≡ pos 1 → release r ≡ release_all (record r { ref_count = pos 0 })
  unfolding release
  release_last e =
      if_true _ _ (ap (λ z. is_zero (pred_ℤ z)) e)
      ∙ ap (λ z. release_all (record r { ref_count = pred_ℤ z })) e

  -- The Release that brings the count to zero leaves no record held, and cancels the stream unless
  -- that was done before; any other Release changes nothing but the count.
  pub release_lem :
      (r.ref_count ≡ pos 1
        → (held (release r) ≡ [])
          × ((release r).cancels ≡ (if r.has_cancel then suc r.cancels else r.cancels)))
      × (r.ref_count ≢ pos 1 → release r ≡ record r { ref_count = pred_ℤ r.ref_count })
  unfolding release release_all
  release_lem = (
    λ e. (
      ap held (release_last e) ∙ drop-nil' r.buf_pos,
      ap (λ (x : Reader Schema Rec). x.cancels) (release_last e) ∙ ground arith,
    ),
    λ n. if_false _ _ (is_zero-pred_ℤ r.ref_count n),
  )
    where
      drop-nil' : (n : ℕ) → drop {A = Rec} n [] ≡ []
      drop-nil' zero = refl
      drop-nil' (suc n) = refl
