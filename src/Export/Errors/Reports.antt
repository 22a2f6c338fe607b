-- ===== src/Export/Errors/Reports.antt =====
-- What the caller of the C interface reads of an error.
use adbc_driver_spark.Base.{
  true, false, ◌&&◌, ◌≡◌, ◌≢◌, ◌⊎◌, inl, inr, refl, sym, ap, ◌∙◌, Option, none, some, List, [], ◌∷◌,
  ◌++◌, ◌==◌, if◌then◌else◌, Bool-cases, if_true, if_false, subst, ap₂,
}
use adbc_driver_spark.Base.Int.{ℤ, pos}
use adbc_driver_spark.Base.Text.{Text, has_prefix}
use adbc_driver_spark.Adbc.{Status, Error, GoError, text_of}
use adbc_driver_spark.Connect.Config.Split.{Avoids}
use adbc_driver_spark.Export.Errors.{
  Printer, CDetail, AdbcError, no_release, plain_release, details_release, err_prefix, Releaser,
  err_release_by, release_err_with_details, is_private_code, prefixed, set_err, with_private_data,
  err_release, set_err_with_details, full_error, err_to_adbc_err,
}

-- fmt.Sprintf without operands leaves a text without '%' as it is.
abbrev pub PrintsPlain : Printer → Type 0
PrintsPlain p = (t : Text) → Avoids b'%' t → p.sprintf t [] ≡ t

abbrev pub status_of : GoError → Status
status_of (GoError.adbc e) = e.code
status_of (GoError.other m) = Status.unknown

pub err_to_adbc_err-status :
    (p : Printer) (e : Option AdbcError) (g : GoError)
    → (err_to_adbc_err p e (some g)).1 ≡ status_of g
unfolding err_to_adbc_err
err_to_adbc_err-status p e (GoError.adbc f) = refl
err_to_adbc_err-status p e (GoError.other m) = refl

-- The vendor code that is left in an error struct for an error of the driver: a caller that asks for
-- private data, and an error without a code, keep the mark for private data.
abbrev pub vendor_code_after : ℤ → GoError → ℤ
vendor_code_after before (GoError.adbc e) =
    if is_private_code before && e.vendor_code == 0 then before else pos e.vendor_code
vendor_code_after before (GoError.other m) = before

-- The struct owns the text of the error, alone or behind the prefix, and has the vendor code.
pub record Reports (p : Printer) (before : ℤ) (g : GoError) (e : AdbcError) : Type 0 where
  pub text :
      (e.message ≡ some (p.render (text_of g)))
      ⊎ (e.message ≡ some (err_prefix ++ p.render (text_of g)))
  pub owned : e.release ≢ no_release
  pub vendor : e.vendor_code ≡ vendor_code_after before g

prefixed-plain :
    (p : Printer) (t : Text)
    → p.sprintf t [] ≡ t
    → (prefixed p t [] ≡ t) ⊎ (prefixed p t [] ≡ err_prefix ++ t)
unfolding prefixed
prefixed-plain p t e = elim (Bool-cases (has_prefix err_prefix t)) [
  | inl h ↦ inl (rw h e)
  | inr h ↦ inr (rw h (ap (λ s. err_prefix ++ s) e))
]

plain≢no : plain_release ≢ no_release
plain≢no e = cc

details≢no : details_release ≢ no_release
details≢no e = cc

err_release_by-vendor_code :
    (e : AdbcError) (r : Releaser) → (err_release_by e r).vendor_code ≡ e.vendor_code
err_release_by-vendor_code e no_release = refl
err_release_by-vendor_code e plain_release = refl
err_release_by-vendor_code e details_release = by_details e.private_data
  where
    by_details :
        (o : Option (List CDetail)) → (release_err_with_details e o).vendor_code ≡ e.vendor_code
    by_details none = refl
    by_details (some details) = refl

-- The outcome of a call that reports an error to a struct.
abbrev pub Outcome : Printer → ℤ → GoError → Option AdbcError → Type 0
Outcome p before g none = ⊥
Outcome p before g (some e) = Reports p before g e

-- `setErr` with a text for its format.
set_err-Outcome :
    (p : Printer) (before : ℤ) (g : GoError) (e : AdbcError)
    → p.sprintf (p.render (text_of g)) [] ≡ p.render (text_of g)
    → e.vendor_code ≡ vendor_code_after before g
    → Outcome p before g (set_err p (some e) (p.render (text_of g)) [])
unfolding set_err err_release
set_err-Outcome p before g e plain v = record {
  text = elim (prefixed-plain p (p.render (text_of g)) plain) [
    | inl h ↦ inl (ap some h)
    | inr h ↦ inr (ap some h)
  ];
  owned = plain≢no;
  vendor = err_release_by-vendor_code e e.release ∙ v;
}

-- The struct with the SQL state and the code of an error of the driver.
abbrev coded_struct : AdbcError → Error → AdbcError
coded_struct e f = record e { sqlstate = 0 ∷ 0 ∷ 0 ∷ 0 ∷ 0 ∷ []; vendor_code = pos f.vendor_code }

module _ (p : Printer) (e : AdbcError) (f : Error) where
  details_not_asked :
      is_private_code e.vendor_code ≡ false
      → set_err_with_details p (some e) (full_error p f)
        ≡ set_err p (some (coded_struct e f)) (p.render f.msg) []
  unfolding set_err_with_details
  details_not_asked h = rw h refl

  code_without_details :
      is_private_code e.vendor_code ≡ true
      → (f.vendor_code == 0) ≡ false
      → set_err_with_details p (some e) (full_error p f)
        ≡ set_err p (some (coded_struct e f)) (p.render f.msg) []
  unfolding set_err_with_details
  code_without_details h n = rw (h, n) refl

  no_code :
      is_private_code e.vendor_code ≡ true
      → (f.vendor_code == 0) ≡ true
      → set_err_with_details p (some e) (full_error p f)
        ≡ some (with_private_data (record e { sqlstate = 0 ∷ 0 ∷ 0 ∷ 0 ∷ 0 ∷ [] }) (full_error p f))
  unfolding set_err_with_details
  no_code h n = rw (h, n) refl

  set_err_with_details-Outcome :
      p.sprintf (p.render f.msg) [] ≡ p.render f.msg
      → Outcome p e.vendor_code (GoError.adbc f) (set_err_with_details p (some e) (full_error p f))
  unfolding with_private_data
  set_err_with_details-Outcome plain = elim (Bool-cases (is_private_code e.vendor_code)) [
    | inr h ↦ subst (Outcome p e.vendor_code (GoError.adbc f)) (sym (details_not_asked h)) (
        set_err-Outcome p e.vendor_code (GoError.adbc f) (coded_struct e f) plain
          (sym (if_false _ _ (ap (λ b. b && f.vendor_code == 0) h))))
    | inl h ↦ elim (Bool-cases (f.vendor_code == 0)) [
      | inr n ↦ subst (Outcome p e.vendor_code (GoError.adbc f)) (sym (code_without_details h n)) (
          set_err-Outcome p e.vendor_code (GoError.adbc f) (coded_struct e f) plain
            (sym (if_false _ _ (ap₂ ◌&&◌ h n))))
      | inl n ↦ subst (Outcome p e.vendor_code (GoError.adbc f)) (sym (no_code h n)) (record {
        text = inl refl;
        owned = details≢no;
        vendor = sym (if_true _ _ (ap₂ ◌&&◌ h n));
      })
    ]
  ]

-- An error that reaches the caller's struct, whatever the struct held, is told there: its status is
-- returned, its text is the message, alone or behind the prefix, if it holds no '%', and the vendor
-- code is that of the error, unless there is none and the caller has asked for private data.
pub err_to_adbc_err-Outcome :
    (p : Printer) (e : AdbcError) (g : GoError)
    → PrintsPlain p
    → Avoids b'%' (p.render (text_of g))
    → let (e', status) = err_to_adbc_err p (some e) (some g) in
      (status ≡ status_of g) × Outcome p e.vendor_code g e'
unfolding err_to_adbc_err
err_to_adbc_err-Outcome p e (GoError.other m) plain no_verb =
    (refl, set_err-Outcome p e.vendor_code (GoError.other m) e (plain _ no_verb) refl)
err_to_adbc_err-Outcome p e (GoError.adbc f) plain no_verb =
    (refl, set_err_with_details-Outcome p e f (plain _ no_verb))
