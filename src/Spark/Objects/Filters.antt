-- ===== src/Spark/Objects/Filters.antt =====
-- The rows of GetObjects: every name passes its filter, and each list is null exactly at the depths
-- that leave it out.
use adbc_driver_spark.Base.{
  ℕ, suc, Bool, true, ◌≡◌, refl, subst, Option, none, some, List, [], ◌∷◌, ok, err, All, All-append,
  is_nil, keep, Bool-cases, inl, inr, get_elem?,
}
use adbc_driver_spark.Base.Text.{Text, Unicode}
use adbc_driver_spark.Adbc.{Go}
use adbc_driver_spark.Arrow.{Schema, Array, strings, booleans, other_array, Batch}
use adbc_driver_spark.Connect.Client.{Client}
use adbc_driver_spark.Spark.Like.{matches_pattern, filter_by_pattern, like_match}
use adbc_driver_spark.Spark.Objects.Monad.{M, pure, then', for_each}
use adbc_driver_spark.Spark.Objects.{
  ColumnRow, TableEntry, table_entries, batch_entries, both, entries_of, column_rows, temp_column,
}

-- What holds of the value that a method returns, if it returns one.
pub record Ensures {A : Type 0} (Q : A → Type 0) (o : Option (Client × Go A)) : Type 0 where
  pub holds : {c : Client} {a : A} → o ≡ some (c, ok a) → Q a

pub then'-Ensures :
    {A B : Type 0} (P : A → Type 0) (Q : B → Type 0) (o : Option (Client × Go A)) (f : A → M B)
    → Ensures P o
    → ((a : A) (c : Client) → P a → Ensures Q (f a c))
    → Ensures Q (then' o f)
unfolding then'
then'-Ensures P Q none f p k = record { holds = λ e. cc }
then'-Ensures P Q (some (c, err e)) f p k = record { holds = λ e. cc }
then'-Ensures P Q (some (c, ok a)) f p k = k a c (p.holds refl)

pub pure-Ensures : {A : Type 0} (Q : A → Type 0) (a : A) (c : Client) → Q a → Ensures Q (pure a c)
pure-Ensures Q a c q = record { holds = λ {a = b} e. let same : a ≡ b = cc in subst Q same q }

pub for_each-Ensures :
    {A B : Type 0} (P : A → Type 0) (Q : B → Type 0) (xs : List A) (f : A → M B) (c : Client)
    → All P xs
    → ((x : A) (c : Client) → P x → Ensures Q (f x c))
    → Ensures (All Q) (for_each xs f c)
for_each-Ensures P Q [] f c p k = pure-Ensures (All Q) [] c tt
for_each-Ensures P Q (x ∷ xs) f c (p, ps) k = then'-Ensures Q (All Q) (f x c) _ (k x c p) λ y d q.
    then'-Ensures (All Q) (All Q) (for_each xs f d) _ (for_each-Ensures P Q xs f d ps k)
      λ ys e qs. pure-Ensures (All Q) (y ∷ ys) e (q, qs)

pub keep-All :
    {A : Type 0} (P : A → Type 0) (p : A → Bool) (xs : List A)
    → All P xs
    → All (λ x. P x × (p x ≡ true)) (keep p xs)
keep-All P p [] h = tt
keep-All P p (x ∷ xs) (h, hs) = elim (Bool-cases (p x)) [
  | inl e ↦ rw (e, keep) ((h, e), keep-All P p xs hs)
  | inr e ↦ rw (e, keep) (keep-All P p xs hs)
]

All-map :
    {A : Type 0} {P Q : A → Type 0} (xs : List A) → ((x : A) → P x → Q x) → All P xs → All Q xs
All-map [] f h = tt
All-map (x ∷ xs) f (h, hs) = (f x h, All-map xs f hs)

pub All-total : {A : Type 0} {P : A → Type 0} (xs : List A) → ((x : A) → P x) → All P xs
All-total [] f = tt
All-total (x ∷ xs) f = (f x, All-total xs f)

-- What holds of the elements of a list, if there is one.
abbrev pub OfList : {A : Type 0} → (A → Type 0) → Option (List A) → Type 0
OfList P none = Unit
OfList P (some xs) = All P xs

module _ (u : Unicode) where
  pub filter_by_pattern-All :
      (names : List Text) (pattern : Option Text)
      → All (λ n. matches_pattern u pattern n ≡ true) (filter_by_pattern u names pattern)
  unfolding filter_by_pattern matches_pattern
  filter_by_pattern-All names none = All-total names (λ _. refl)
  filter_by_pattern-All names (some p) = elim (Bool-cases (is_nil p)) [
    | inl e ↦ rw e (All-total names (λ _. refl))
    | inr e ↦ rw e (
        All-map _ (λ n (both : Unit × (like_match u p n ≡ true)). both.1)
          (keep-All (λ _. Unit) (like_match u p) names (All-total names (λ _. tt))))
  ]

  pub table_entries-All :
      (pattern : Option Text) (temp : List (Option Bool)) (r : ℕ) (cells : List (Option Text))
      → All
          (λ (t : TableEntry). matches_pattern u pattern t.name ≡ true)
          (table_entries u pattern temp r cells)
  unfolding table_entries
  table_entries-All pattern temp r [] = tt
  table_entries-All pattern temp r (none ∷ cells) = table_entries-All pattern temp (suc r) cells
  table_entries-All pattern temp r (some t ∷ cells) =
      elim (Bool-cases (matches_pattern u pattern t)) [
        | inl e ↦ rw e (e, table_entries-All pattern temp (suc r) cells)
        | inr e ↦ rw e (table_entries-All pattern temp (suc r) cells)
      ]

  pub column_rows-All :
      (pattern : Option Text) (i : ℕ) (fields : Schema)
      → All
          (λ (row : ColumnRow). matches_pattern u pattern row.name ≡ true)
          (column_rows u pattern i fields)
  unfolding column_rows
  column_rows-All pattern i [] = tt
  column_rows-All pattern i (f ∷ fs) = elim (Bool-cases (matches_pattern u pattern f.name)) [
    | inl e ↦ rw e (e, column_rows-All pattern (suc i) fs)
    | inr e ↦ rw e (column_rows-All pattern (suc i) fs)
  ]

  both-All :
      (P : TableEntry → Type 0) (a b : Option (List TableEntry))
      → OfList P a
      → OfList P b
      → OfList P (both a b)
  both-All P none b h k = tt
  both-All P (some xs) none h k = tt
  both-All P (some xs) (some ys) h k = All-append P xs ys h k

  batch_entries-All :
      (pattern : Option Text) (temp : List (Option Bool)) (column : Option Array)
      → OfList (λ t. matches_pattern u pattern t.name ≡ true) (batch_entries u pattern temp column)
  batch_entries-All pattern temp none = tt
  batch_entries-All pattern temp (some (strings cells)) = table_entries-All pattern temp 0 cells
  batch_entries-All pattern temp (some (booleans _)) = tt
  batch_entries-All pattern temp (some (other_array _)) = tt

  pub entries_of-All :
      (pattern : Option Text) (name_idx : ℕ) (temp_idx : Option ℕ) (batches : List Batch)
      → OfList
          (λ t. matches_pattern u pattern t.name ≡ true)
          (entries_of u pattern name_idx temp_idx batches)
  unfolding entries_of
  entries_of-All pattern name_idx temp_idx [] = tt
  entries_of-All pattern name_idx temp_idx (b ∷ bs) =
      both-All _ _ _ (batch_entries-All pattern (temp_column temp_idx b) (get_elem? b name_idx))
        (entries_of-All pattern name_idx temp_idx bs)
