-- ===== src/Export/Options/Buffers.antt =====
-- What the caller's buffer holds after an option has been exported.
use adbc_driver_spark.Base.{
  ℕ, zero, suc, ◌+◌, ◌≤◌, ◌<◌, true, false, ◌≡◌, refl, sym, ap, ◌∙◌, Option, none, some, [], ◌∷◌,
  ◌++◌, leb, if◌then◌else◌, if_true, if_false, Bool-cases, inl, inr, length, take, drop, arith,
  append_assoc, subst, ap₂,
}
use adbc_driver_spark.Base.Text.{Text}
use adbc_driver_spark.Export.Options.{
  copy, set_at, written, write_string, with_length, export_string_option,
}

take-drop : (n : ℕ) (mem : Text) → take n mem ++ drop n mem ≡ mem
take-drop zero mem = refl
take-drop (suc n) [] = refl
take-drop (suc n) (x ∷ mem) = ap (◌∷◌ x) (take-drop n mem)

drop-take : (n len : ℕ) (mem : Text) → n ≤ len → drop n (take len mem) ++ drop len mem ≡ drop n mem
drop-take zero len mem h = take-drop len mem
drop-take (suc n) zero mem h = absurd (omega arith)
drop-take (suc n) (suc len) [] h = refl
drop-take (suc n) (suc len) (x ∷ mem) h = drop-take n len mem (omega arith)

length-take : (len : ℕ) (mem : Text) → len ≤ length mem → length (take len mem) ≡ len
length-take zero mem h = refl
length-take (suc len) [] h = absurd (omega arith)
length-take (suc len) (x ∷ mem) h = ap suc (length-take len mem (omega arith))

copy-drop : (val s : Text) → length val ≤ length s → copy val s ≡ val ++ drop (length val) s
copy-drop [] s h = refl
copy-drop (v ∷ val) [] h = absurd (omega arith)
copy-drop (v ∷ val) (y ∷ s) h = ap (◌∷◌ v) (copy-drop val s (omega arith))

set_at-copy :
    (val s : Text)
    → length val < length s
    → set_at (length val) 0 (copy val s) ≡ some (val ++ 0 ∷ drop (suc (length val)) s)
set_at-copy [] [] h = absurd (omega arith)
set_at-copy [] (y ∷ s) h = refl
set_at-copy (v ∷ val) [] h = absurd (omega arith)
set_at-copy (v ∷ val) (y ∷ s) h =
    ap (λ (o : Option Text). elim o [ none ↦ none | some t ↦ some (v ∷ t) ])
      (set_at-copy val s (omega arith))

write_string-drop :
    (val mem : Text) (len : ℕ)
    → length val < len
    → len ≤ length mem
    → write_string val (some mem) len ≡ some (some (val ++ 0 ∷ drop (suc (length val)) mem))
write_string-drop val mem len h k =
    ap (written len mem)
      (set_at-copy val (take len mem) (subst (λ n. length val < n) (sym (length-take len mem k)) h))
    ∙ ap (λ s. some (some s))
        (append_assoc val (0 ∷ drop (suc (length val)) (take len mem)) (drop len mem)
          ∙ ap (λ s. val ++ 0 ∷ s) (drop-take (suc (length val)) len mem (omega arith)))

-- The two cases of a buffer that is large enough and one that is not.
export_string_option-cases :
    (val mem : Text) (len : ℕ)
    → len ≤ length mem
    → (length val < len
        → (export_string_option val (some mem) len
            ≡ some (some (val ++ 0 ∷ drop (suc (length val)) mem), length val + 1))
          × (export_string_option val none len ≡ none))
      × (len ≤ length val
          → (export_string_option val (some mem) len ≡ some (some mem, length val + 1))
            × (export_string_option val none len ≡ some (none, length val + 1)))
unfolding export_string_option
export_string_option-cases val mem len k = (
  λ h.
      let fits : leb (length val + 1) len ≡ true = ground arith in
      (
        ap (with_length (length val + 1)) (if_true _ _ fits ∙ write_string-drop val mem len h k),
        ap (with_length (length val + 1)) (if_true _ _ fits),
      ),
  λ h.
      let short : leb (length val + 1) len ≡ false = ground arith in
      (
        ap (with_length (length val + 1)) (if_false _ _ short),
        ap (with_length (length val + 1)) (if_false _ _ short),
      ),
)

-- The caller's buffer of `len` bytes, with more memory behind it or not: if the value and its
-- terminator fit, they are written to its beginning and nothing else is changed, and if they do not,
-- nothing is; without a buffer nothing is written, unless `len` claims that there is room, which is a
-- panic. The length that is returned is always the one that is needed.
pub export_string_option-Fills :
    (val mem : Text) (len : ℕ)
    → len ≤ length mem
    → let fits = leb (suc (length val)) len in
      (export_string_option val (some mem) len
        ≡ some
            (some (if fits then val ++ 0 ∷ drop (suc (length val)) mem else mem), length val + 1))
      × (export_string_option val none len ≡ (if fits then none else some (none, length val + 1)))
export_string_option-Fills val mem len k = elim (Bool-cases (leb (suc (length val)) len)) [
  | inl h ↦
      let (filled, panicked) = (export_string_option-cases val mem len k).0 (ground arith) in
      rw (h, if◌then◌else◌) (filled, panicked)
  | inr h ↦
      let (same, none_written) = (export_string_option-cases val mem len k).1 (ground arith) in
      rw (h, if◌then◌else◌) (same, none_written)
]

-- The two calls of a caller that asks for the length first: the first one, without a buffer, returns
-- the length, and the second one, with a buffer of that length, fills it with the value and its
-- terminator.
pub export_string_option_twice :
    (val mem : Text)
    → length mem ≡ length val + 1
    → (export_string_option val none 0 ≡ some (none, length mem))
      × (export_string_option val (some mem) (length mem) ≡ some (some (val ++ 0 ∷ []), length mem))
export_string_option_twice val mem e =
    let small = (export_string_option-cases val mem 0 (omega arith)).1 (omega arith) in
    let large =
      (export_string_option-cases val mem (length mem) (omega arith)).0 (omega (arith, e)) in
    (
      small.1 ∙ ap (λ n. some (none, n)) (sym e),
      large.0
          ∙ ap₂ (λ s n. some (some (val ++ 0 ∷ s), n))
              (drop_all (suc (length val)) mem (omega (arith, e))) (sym e),
    )
  where
    drop_all : (n : ℕ) (mem : Text) → length mem ≤ n → drop n mem ≡ []
    drop_all zero [] h = refl
    drop_all zero (x ∷ mem) h = absurd (omega arith)
    drop_all (suc n) [] h = refl
    drop_all (suc n) (x ∷ mem) h = drop_all n mem (omega arith)
