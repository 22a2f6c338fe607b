-- ===== src/Tests/Names.antt =====
-- Names, identifiers and patterns.
use adbc_driver_spark.Base.{
  ◌≡◌, ◌≢◌, sym, ◌∙◌, ◌⊎◌, inl, inr, ◌↔◌, arith, refl, ℕ, Bool, true, false, none, some, [], ◌∷◌,
  ◌++◌, All, ◌==◌,
}
use adbc_driver_spark.Base.Text.{Text, codes, lower_ascii}
use adbc_driver_spark.Spark.Like.{equal_fold, like_match, like_body, like_clause}
use adbc_driver_spark.Spark.Like.Fold.{equal_fold_iff, Among}
use adbc_driver_spark.Spark.Like.Matches.{Matches}
use adbc_driver_spark.Spark.Like.Decide.{like_match_iff, like_match_percent_name}
use adbc_driver_spark.Spark.Like.Clause.{
  like_body_iff, SparkMatches, FoldsAscii, like_clause_form, IsUnquoted,
}
use adbc_driver_spark.Spark.Quote.{quote_qualified_name, name_parts}
use adbc_driver_spark.Spark.Quote.Lexer.{lex_name, lex_name-quote_qualified_name}
use adbc_driver_spark.Tests.Data.{ascii_tables}

like_match_iff_example :
    (like_match ascii_tables (codes "b%_a") (codes "Banana") ≡ true)
    ↔ Matches ascii_tables (codes "b%_a") (codes "Banana")
like_match_iff_example =
    like_match_iff ascii_tables (codes "b%_a") (codes "Banana") refl (ground arith)

banana_matches : like_match ascii_tables (codes "b%_a") (codes "Banana") ≡ true
unfolding like_match
banana_matches = refl

like_match_percent_name_example :
    Matches ascii_tables (codes "%") (codes "off")
    × (like_match ascii_tables (codes "%") (codes "%off") ≡ false)
like_match_percent_name_example =
    like_match_percent_name ascii_tables (codes "off") b'o' (codes "ff")

equal_fold_iff_example :
    (equal_fold ascii_tables b'k' b'K' ≡ true)
    ↔ (◌≡◌ {A = ℕ} b'k' b'K' ⊎ Among ascii_tables b'K' b'K' 1)
equal_fold_iff_example = equal_fold_iff ascii_tables b'k' b'K' 1 (omega arith) (ground arith)

abbrev swap : ℕ → ℕ
swap = ascii_tables.simple_fold

swap_cases : (a : ℕ) → (swap a ≡ a) ⊎ ((swap a ≢ a) × (swap (swap a) ≡ a))
swap_cases a = ground arith

-- Two ASCII runes are equal in lower case exactly if they are the same or swap into each other.
lower_ascii-swap : (a b : ℕ) → ((lower_ascii a == lower_ascii b) ≡ true) ↔ ((a ≡ b) ⊎ (swap a ≡ b))
unfolding lower_ascii
lower_ascii-swap a b = ground arith

same_truth : (x y : Bool) → ((x ≡ true) ↔ (y ≡ true)) → x ≡ y
same_truth x y h = ground arith

ascii_tables-FoldsAscii : FoldsAscii ascii_tables
ascii_tables-FoldsAscii a b h k =
    let (to, from) = lower_ascii-swap a b in
    elim (swap_cases a) [
      | inl same ↦
          let (hit, find) = equal_fold_iff ascii_tables a b 0 (omega arith) same in
          same_truth _ _ (
            λ e. from (elim (hit e) [ inl x ↦ inl x | inr x ↦ absurd x ]),
            λ e. find (elim (to e) [ inl x ↦ inl x | inr x ↦ inl (sym same ∙ x) ]),
          )
      | inr (other, back) ↦
          let (hit, find) = equal_fold_iff ascii_tables a b 1 (omega arith) (other, back) in
          same_truth _ _ (
            λ e.
                from
                  (elim (hit e) [ inl x ↦ inl x | inr (inl x) ↦ inr x | inr (inr x) ↦ absurd x ]),
            λ e. find (elim (to e) [ inl x ↦ inl x | inr x ↦ inr (inl x) ]),
          )
    ]

like_body_iff_example :
    SparkMatches (codes "b*.a") (codes "Banana")
    ↔ Matches ascii_tables (codes "b%_a") (codes "Banana")
unfolding like_body
like_body_iff_example =
    like_body_iff ascii_tables (codes "b%_a") (codes "b*.a") (codes "Banana")
      ascii_tables-FoldsAscii refl (ground arith)

like_clause_form_example :
    (like_clause (some (codes "b%")) ≡ [])
    ⊎ ((bs : Text) × (like_clause (some (codes "b%")) ≡ codes " LIKE '" ++ (bs ++ b'\'' ∷ []))
        × All IsUnquoted bs)
like_clause_form_example = like_clause_form (some (codes "b%"))

lex_name-quote_qualified_name_example :
    lex_name 3 (quote_qualified_name (some (codes "a.b")) none (codes "t`"))
    ≡ some (name_parts (some (codes "a.b")) none (codes "t`"))
lex_name-quote_qualified_name_example =
    lex_name-quote_qualified_name (some (codes "a.b")) none (codes "t`")
