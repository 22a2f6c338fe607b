-- ===== src/Spark/Quote.antt =====
-- driver/spark/connection.go: `quoteIdent` and `quoteQualifiedName`. Texts are lists of runes.
pub mod Lexer
use adbc_driver_spark.Base.{
  ℕ, Bool, true, false, Option, none, some, List, [], ◌∷◌, ◌++◌, ◌==◌, if◌then◌else◌, map,
}
use adbc_driver_spark.Base.Text.{Text}

abbrev pub backtick : ℕ
backtick = b'`'

-- the loop of `quoteIdent`: what is appended for each rune
unfoldable pub escape : Text → Text
escape [] = []
escape (r ∷ s) =
    let rest = escape s in if r == backtick then backtick ∷ backtick ∷ rest else r ∷ rest

unfoldable pub quote_ident : Text → Text
unfolding escape
quote_ident ident = backtick ∷ (escape ident ++ backtick ∷ [])

-- The parts of a `*string` that is neither nil nor "".
abbrev pub part : Option Text → List Text
part none = []
part (some []) = []
part (some (c ∷ s)) = (c ∷ s) ∷ []

-- the loop over `parts[1:]`
unfoldable pub join_parts : Text → List Text → Text
join_parts out [] = out
join_parts out (p ∷ ps) = join_parts (out ++ b'.' ∷ p) ps

abbrev pub join_all : List Text → Text
join_all [] = []
join_all (p ∷ ps) = join_parts p ps

-- The names that `quoteQualifiedName` quotes.
abbrev pub name_parts : Option Text → Option Text → Text → List Text
name_parts catalog db_schema table = part catalog ++ (part db_schema ++ table ∷ [])

unfoldable pub quote_qualified_name : Option Text → Option Text → Text → Text
unfolding quote_ident join_parts
quote_qualified_name catalog db_schema table =
    join_all (
      map quote_ident (part catalog)
      ++ (map quote_ident (part db_schema) ++ quote_ident table ∷ []))
