-- ===== src/Export/Table/Wiring.antt =====
-- Every function of the interface is where a driver manager looks for it.
use adbc_driver_spark.Base.{
  ◌≡◌, refl, Option, none, some, List, [], ◌∷◌, ◌++◌, length, All, if◌then◌else◌, arith, all, Bool,
  true, false, ◌&&◌, ap, ◌∙◌,
}
use adbc_driver_spark.Base.Int.{ℤ}
use adbc_driver_spark.Base.Text.{Text, codes, text_eq, text_eq_iff}
use mathlib.Core.Bool.{false≢true}
use adbc_driver_spark.Adbc.{Status}
use adbc_driver_spark.Export.Errors.{Printer, AdbcError}
use adbc_driver_spark.Export.Table.{
  Entry, fields_1_0_0, fields_added_in_1_1_0, common_entries, entries_1_1_0, driver_init, init_at,
  Version, version_1_0_0, version_1_1_0, other_version, version_of,
}

-- What a field holds once the entries are stored in order.
unfoldable pub stored : Text → List Entry → Option Text
unfolding text_eq
stored field [] = none
stored field ((name, f) ∷ entries) =
    let later = stored field entries in
    elim later [ none ↦ if text_eq name field then some f else none | some g ↦ some g ]

-- Each of the fields holds the function "Spark" with the field's name, and there are no more entries
-- than fields.
abbrev pub Fills : List Text → List Entry → Type 0
Fills fields entries =
    All (λ field. stored field entries ≡ some (codes "Spark" ++ field)) fields
    × (length entries ≡ length fields)

-- The same as a test.
holds : List Entry → Text → Bool
unfolding stored text_eq
holds entries field = elim (stored field entries) [
  | none ↦ false
  | some f ↦ text_eq f (codes "Spark" ++ field)
]

holds-true :
    (entries : List Entry) (field : Text)
    → holds entries field ≡ true
    → stored field entries ≡ some (codes "Spark" ++ field)
unfolding holds
holds-true entries field h = from_stored (stored field entries) refl h
  where
    from_stored :
        (o : Option Text)
        → stored field entries ≡ o
        → (elim o [ none ↦ false | some f ↦ text_eq f (codes "Spark" ++ field) ]) ≡ true
        → stored field entries ≡ some (codes "Spark" ++ field)
    from_stored none e k = absurd (false≢true k)
    from_stored (some f) e k = e ∙ ap some ((text_eq_iff f (codes "Spark" ++ field)).0 k)

both_true : (a b : Bool) → (a && b) ≡ true → (a ≡ true) × (b ≡ true)
both_true a b h = ground arith

all-All :
    {A : Type 0} {P : A → Type 0} (p : A → Bool) (xs : List A)
    → ((x : A) → p x ≡ true → P x)
    → all p xs ≡ true
    → All P xs
all-All p [] f h = tt
all-All p (x ∷ xs) f h =
    let (here, later) = both_true (p x) (all p xs) h in (f x here, all-All p xs f later)

common_entries-Fills : Fills fields_1_0_0 common_entries
unfolding holds
common_entries-Fills =
    (all-All (holds common_entries) fields_1_0_0 (holds-true common_entries) refl, refl)

entries_1_1_0-Fills :
    Fills (fields_1_0_0 ++ fields_added_in_1_1_0) (common_entries ++ entries_1_1_0)
unfolding holds
entries_1_1_0-Fills = (
  all-All (holds (common_entries ++ entries_1_1_0)) (fields_1_0_0 ++ fields_added_in_1_1_0)
      (holds-true (common_entries ++ entries_1_1_0)) refl,
  refl,
)

-- The table that a driver of a version is to have.
abbrev pub Fits : Version → List Entry × Option AdbcError × Status → Type 0
Fits version_1_0_0 (table, e, code) = Fills fields_1_0_0 table × (code ≡ Status.ok)
Fits version_1_1_0 (table, e, code) =
    Fills (fields_1_0_0 ++ fields_added_in_1_1_0) table × (code ≡ Status.ok)
Fits other_version (table, e, code) = (table ≡ []) × (code ≡ Status.not_implemented)

init_at-Fits :
    (p : Printer) (version : ℤ) (e : Option AdbcError) (v : Version)
    → Fits v (init_at p version e v)
init_at-Fits p version e version_1_0_0 = (common_entries-Fills, refl)
init_at-Fits p version e version_1_1_0 = (entries_1_1_0-Fills, refl)
init_at-Fits p version e other_version = (refl, refl)

-- `driver_init` fills exactly the fields that a version of the table has, each with the function of
-- its name, so that with version 1.0.0 nothing is stored behind the end of the smaller table; and any
-- other version is refused without a table.
pub driver_init-Fits :
    (p : Printer) (version : ℤ) (e : Option AdbcError)
    → Fits (version_of version) (driver_init p version e)
unfolding driver_init
driver_init-Fits p version e = init_at-Fits p version e (version_of version)
