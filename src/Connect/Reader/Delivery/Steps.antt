-- ===== src/Connect/Reader/Delivery/Steps.antt =====
-- One call of `Next`: what it reads of what is pending.
use adbc_driver_spark.Base.{
  ℕ, zero, suc, ◌≤◌, ◌<◌, Bool, true, false, ◌≡◌, inl, inr, refl, sym, ap, ap₂, subst, if_true,
  if_false, ◌∙◌, Option, none, some, List, [], ◌∷◌, ◌++◌, arith, leb, if◌then◌else◌, length,
  get_elem?, drop, Option-cases, Bool-cases,
}
use adbc_driver_spark.Base.Text.{Text}
use adbc_driver_spark.Adbc.{GoError}
use adbc_driver_spark.Connect.Reader.{
  Ipc, Reader, is_none, fill_from, fill, release_cur, advance, next_loop, next,
}
use adbc_driver_spark.Connect.Reader.Delivery.{
  contents, pending, Idle, Filled, ended, more, fill_from-Filled, pending_running, pending_done,
  done_pending,
}

module _ {Schema Rec : Type 0} (decode : Text → Ipc Schema Rec) where
  -- One call of `Next`: the next record, or the end with the error of the content.
  pub data Steps (content : List Rec × Option GoError)
      : Option (Reader Schema Rec × Bool) → Type 0 where
    record_read :
        (x : Rec) (r : Reader Schema Rec)
        → r.cur ≡ some x
        → content ≡ (x ∷ (pending decode r).0, (pending decode r).1)
        → Steps content (some (r, true))
    at_end : (r : Reader Schema Rec) → content ≡ ([], r.error) → Steps content (some (r, false))

  -- Past the end of the buffer nothing is left of it.
  drop-end : (n : ℕ) (xs : List Rec) → length xs ≤ n → drop n xs ≡ []
  drop-end zero [] h = refl
  drop-end zero (x ∷ xs) h = absurd (omega arith)
  drop-end (suc n) [] h = refl
  drop-end (suc n) (x ∷ xs) h = drop-end n xs (omega arith)

  drop-get :
      (n : ℕ) (xs : List Rec)
      → n < length xs
      → (x : Rec) × (get_elem? xs n ≡ some x) × (drop n xs ≡ x ∷ drop (suc n) xs)
  drop-get n [] h = absurd (omega arith)
  drop-get zero (x ∷ xs) h = (x, refl, refl)
  drop-get (suc n) (x ∷ xs) h = drop-get n xs (omega arith)

  pending_advance :
      (r : Reader Schema Rec) (x : Rec)
      → r.error ≡ none
      → drop r.buf_pos r.buf ≡ x ∷ drop (suc r.buf_pos) r.buf
      → let r' = record r { cur = some x; buf_pos = suc r.buf_pos } in
        pending decode r ≡ (x ∷ (pending decode r').0, (pending decode r').1)
  pending_advance r x e d = elim (Bool-cases r.done) [
    | inl over ↦ rw (e, over, d)
    | inr going ↦ rw (e, going, d)
  ]

  read-Steps :
      (f : ℕ) (r : Reader Schema Rec)
      → r.error ≡ none
      → r.buf_pos < length r.buf
      → Steps (pending decode r) (next_loop decode (suc f) r)
  unfolding next_loop advance
  read-Steps f r e h =
      let (x, g, d) = drop-get r.buf_pos r.buf h in
      let more : leb (length r.buf) r.buf_pos ≡ false = ground arith in
      rw (more, next_loop) (rw (g, advance) (record_read x _ refl (pending_advance r x e d)))

  done-Steps :
      (f : ℕ) (r : Reader Schema Rec)
      → r.error ≡ none
      → r.done ≡ true
      → length r.buf ≤ r.buf_pos
      → Steps (pending decode r) (next_loop decode (suc f) r)
  unfolding next_loop
  done-Steps f r e d h =
      let over : leb (length r.buf) r.buf_pos ≡ true = ground arith in
      let left : pending decode r ≡ ([], r.error) =
        pending_done decode r e d ∙ ap₂ (λ a b. (a, b)) (drop-end r.buf_pos r.buf h) (sym e) in
      subst (λ t. Steps (pending decode r) t) (sym (if_true _ _ over ∙ if_true _ _ d))
        (at_end r left)

  Filled-Steps :
      {content : List Rec × Option GoError} (filled : Reader Schema Rec)
      → Filled decode content filled
      → Steps content
          (if is_none filled.error then next_loop decode 1 filled else some (filled, false))
  Filled-Steps {content} filled (ended d b p c) = elim (Option-cases filled.error) [
    | inl e ↦
        subst (λ t. Steps content t) (sym (if_true _ _ (ap is_none e)))
          (subst (λ t. Steps t (next_loop decode 1 filled))
            (done_pending decode filled e d b p ∙ sym c)
            (done-Steps 0 filled e d (short filled b p)))
    | inr (x, e) ↦
        subst (λ t. Steps content t) (sym (if_false _ _ (ap is_none e))) (at_end filled c)
  ]
    where
      short : (r : Reader Schema Rec) → r.buf ≡ [] → r.buf_pos ≡ 0 → length r.buf ≤ r.buf_pos
      short r b p = omega (arith, ap length b)
  Filled-Steps {content} filled (more x xs d b p e c) =
      let left : pending decode filled ≡ content =
        pending_running decode filled e d
        ∙ ap (λ l. (l ++ (contents decode filled.stream).0, (contents decode filled.stream).1))
            (ap₂ drop p b)
        ∙ sym c in
      subst (λ t. Steps content t) (sym (if_true _ _ (ap is_none e)))
        (subst (λ t. Steps t (next_loop decode 1 filled)) left
          (read-Steps 0 filled e (omega (arith, ap length b))))

  fill-Steps :
      (r : Reader Schema Rec)
      → r.error ≡ none
      → r.done ≡ false
      → length r.buf ≤ r.buf_pos
      → Steps (pending decode r) (next_loop decode 2 r)
  unfolding next_loop fill
  fill-Steps r e d h =
      let over : leb (length r.buf) r.buf_pos ≡ true = ground arith in
      let start = record r { buf = []; buf_pos = 0 } in
      let filled = fill_from decode r.stream start in
      let left : pending decode r ≡ contents decode r.stream =
        pending_running decode r e d
        ∙ ap (λ l. (l ++ (contents decode r.stream).0, (contents decode r.stream).1))
            (drop-end r.buf_pos r.buf h) in
      let i : Idle decode start = record {
        no_buf = refl;
        at_start = refl;
        no_error = e;
        running = d;
      } in
      subst (λ t. Steps (pending decode r) t) (sym (if_true _ _ over ∙ if_false _ _ d))
        (subst
          (λ t.
            Steps t
              (if is_none filled.error then next_loop decode 1 filled else some (filled, false)))
          (sym left) (Filled-Steps filled (fill_from-Filled decode r.stream start i)))

  -- `Next` never panics and never runs out of rounds: it reads the next pending record, or ends with
  -- the pending error.
  pub next-Steps : (r : Reader Schema Rec) → Steps (pending decode r) (next decode r)
  unfolding next release_cur
  next-Steps r = elim (Option-cases r.error) [
    | inr (x, e) ↦
        subst (λ t. Steps (pending decode r) t) (sym (if_false _ _ (ap is_none e)))
          (at_end _ (rw e))
    | inl e ↦
        let r' = release_cur r in
        subst (λ t. Steps (pending decode r) t) (sym (if_true _ _ (ap is_none e)))
          (elim (Bool-cases r.done) [
            | inl d ↦ elim (Bool-cases (leb (length r.buf) r.buf_pos)) [
              | inl over ↦ done-Steps 1 r' e d (ground arith)
              | inr rest ↦ read-Steps 1 r' e (ground arith)
            ]
            | inr d ↦ elim (Bool-cases (leb (length r.buf) r.buf_pos)) [
              | inl over ↦ fill-Steps r' e d (ground arith)
              | inr rest ↦ read-Steps 1 r' e (ground arith)
            ]
          ])
  ]
