-- ===== src/Spark/Quote/Lexer.antt =====
-- A reader of Spark's quoted identifiers, and the proof that it reads back what was quoted.
use adbc_driver_spark.Base.{
  ℕ, zero, suc, ◌≤◌, ◌<◌, Bool-cases, ==_iff, inl, inr, ◌≡◌, ◌≢◌, refl, sym, ap, ◌∙◌, Option, none,
  some, List, [], ◌∷◌, ◌++◌, ◌==◌, if◌then◌else◌, map, arith, length, append_assoc, append-nil,
  length-append,
}
use adbc_driver_spark.Base.Text.{Text, before}
use adbc_driver_spark.Spark.Quote.{
  backtick, escape, quote_ident, part, join_parts, join_all, name_parts, quote_qualified_name,
}

-- Behind the opening backtick: two backticks are one, and a single one ends the identifier.
unfoldable pub lex_body : Text → Option (Text × Text)
lex_body [] = none
lex_body (c ∷ []) = if c == backtick then some ([], []) else none
lex_body (c ∷ d ∷ s) =
    let doubled = before backtick (lex_body s) in
    let onward = before c (lex_body (d ∷ s)) in
    if c == backtick then (if d == backtick then doubled else some ([], d ∷ s)) else onward

-- One quoted identifier, and the text behind it.
unfoldable pub lex_ident : Text → Option (Text × Text)
unfolding lex_body
lex_ident [] = none
lex_ident (c ∷ s) = if c == backtick then lex_body s else none

abbrev pub push_part : Text → Option (List Text) → Option (List Text)
push_part p none = none
push_part p (some ps) = some (p ∷ ps)

-- Quoted identifiers joined by dots, up to the end of the text; at most `f` of them.
unfoldable pub lex_name : ℕ → Text → Option (List Text)
unfolding lex_ident
lex_name zero s = none
lex_name (suc f) s = elim (lex_ident s) [
  | none ↦ none
  | some (p, []) ↦ some (p ∷ [])
  | some (p, c ∷ rest) ↦ if c == b'.' then push_part p (lex_name f rest) else none
]

-- The text is empty, or goes on with another rune than a backtick.
abbrev pub EndsIdent : Text → Type 0
EndsIdent [] = Unit
EndsIdent (c ∷ _) = c ≢ backtick

lex_body_plain : (c : ℕ) (t : Text) → c ≢ backtick → lex_body (c ∷ t) ≡ before c (lex_body t)
unfolding lex_body
lex_body_plain c [] n = ground arith
lex_body_plain c (d ∷ s) n = ground arith

lex_body_end : (rest : Text) → EndsIdent rest → lex_body (backtick ∷ rest) ≡ some ([], rest)
unfolding lex_body
lex_body_end [] h = refl
lex_body_end (c ∷ rest) h = ground arith

lex_body_double : (t : Text) → lex_body (backtick ∷ backtick ∷ t) ≡ before backtick (lex_body t)
unfolding lex_body
lex_body_double t = refl

lex_body-escape :
    (s rest : Text) → EndsIdent rest → lex_body (escape s ++ backtick ∷ rest) ≡ some (s, rest)
unfolding escape
lex_body-escape [] rest h = lex_body_end rest h
lex_body-escape (r ∷ s) rest h = elim (Bool-cases (r == backtick)) [
  | inl quoted ↦
      let e = (==_iff r backtick).0 quoted in
      rw quoted (rw lex_body_double (rw (lex_body-escape s rest h) (rw e)))
  | inr plain ↦ rw plain (
      rw (lex_body_plain r (escape s ++ backtick ∷ rest) (ground arith))
        (rw (lex_body-escape s rest h)))
]

-- What `quote_ident` writes is one quoted identifier that reads back as the name, whatever backticks
-- the name holds, if no further backtick follows.
pub lex_ident-quote_ident :
    (s rest : Text) → EndsIdent rest → lex_ident (quote_ident s ++ rest) ≡ some (s, rest)
unfolding lex_ident quote_ident
lex_ident-quote_ident s rest h =
    rw (append_assoc (escape s) (backtick ∷ []) rest) (lex_body-escape s rest h)

-- The joined names without an accumulator.
abbrev dotted : List Text → Text
dotted [] = []
dotted (p ∷ ps) = b'.' ∷ (quote_ident p ++ dotted ps)

join_parts-dotted :
    (ps : List Text) (out : Text) → join_parts out (map quote_ident ps) ≡ out ++ dotted ps
unfolding join_parts
join_parts-dotted [] out = sym (append-nil out)
join_parts-dotted (p ∷ ps) out =
    join_parts-dotted ps (out ++ b'.' ∷ quote_ident p)
    ∙ append_assoc out (b'.' ∷ quote_ident p) (dotted ps)

EndsIdent-dotted : (ps : List Text) → EndsIdent (dotted ps)
EndsIdent-dotted [] = tt
EndsIdent-dotted (p ∷ ps) = omega arith

lex_name_last :
    (f : ℕ) (s p : Text) → lex_ident s ≡ some (p, []) → lex_name (suc f) s ≡ some (p ∷ [])
unfolding lex_name
lex_name_last f s p e = rw (e, lex_name)

lex_name_more :
    (f : ℕ) (s p rest : Text)
    → lex_ident s ≡ some (p, b'.' ∷ rest)
    → lex_name (suc f) s ≡ push_part p (lex_name f rest)
unfolding lex_name
lex_name_more f s p rest e = rw (e, lex_name)

lex_name-dotted :
    (f : ℕ) (p : Text) (ps : List Text)
    → length ps < f
    → lex_name f (quote_ident p ++ dotted ps) ≡ some (p ∷ ps)
lex_name-dotted zero p ps h = absurd (omega arith)
lex_name-dotted (suc f) p [] h = lex_name_last f _ p (lex_ident-quote_ident p [] tt)
lex_name-dotted (suc f) p (q ∷ qs) h =
    lex_name_more f _ p (quote_ident q ++ dotted qs)
      (lex_ident-quote_ident p (dotted (q ∷ qs)) (EndsIdent-dotted (q ∷ qs)))
    ∙ ap (push_part p) (lex_name-dotted f q qs (omega arith))

lex_name-join_all :
    (f : ℕ) (p : Text) (ps : List Text)
    → length ps < f
    → lex_name f (join_all (map quote_ident (p ∷ ps))) ≡ some (p ∷ ps)
lex_name-join_all f p ps h = rw (join_parts-dotted ps (quote_ident p)) (lex_name-dotted f p ps h)

quoted_parts :
    (catalog db_schema : Option Text) (table : Text)
    → quote_qualified_name catalog db_schema table
      ≡ join_all (map quote_ident (name_parts catalog db_schema table))
unfolding quote_qualified_name
quoted_parts none none t = refl
quoted_parts none (some []) t = refl
quoted_parts none (some (_ ∷ _)) t = refl
quoted_parts (some []) none t = refl
quoted_parts (some []) (some []) t = refl
quoted_parts (some []) (some (_ ∷ _)) t = refl
quoted_parts (some (_ ∷ _)) none t = refl
quoted_parts (some (_ ∷ _)) (some []) t = refl
quoted_parts (some (_ ∷ _)) (some (_ ∷ _)) t = refl

lex_parts :
    (parts : List Text)
    → 0 < length parts
    → length parts ≤ 3
    → lex_name 3 (join_all (map quote_ident parts)) ≡ some parts
lex_parts [] h k = absurd (omega arith)
lex_parts (p ∷ ps) h k = lex_name-join_all 3 p ps (omega arith)

length-part : (s : Option Text) → length (part s) ≤ 1
length-part none = omega arith
length-part (some []) = omega arith
length-part (some (_ ∷ _)) = omega arith

length-name_parts :
    (catalog db_schema : Option Text) (table : Text)
    → (0 < length (name_parts catalog db_schema table))
      × (length (name_parts catalog db_schema table) ≤ 3)
length-name_parts catalog db_schema table = omega (
  arith,
  length-append (part catalog) (part db_schema ++ table ∷ []),
  length-append (part db_schema) (table ∷ []),
  length-part catalog,
  length-part db_schema,
)

-- A qualified name reads back as its parts: the non-empty catalog, the non-empty schema and the
-- table, whatever dots and backticks they hold.
pub lex_name-quote_qualified_name :
    (catalog db_schema : Option Text) (table : Text)
    → lex_name 3 (quote_qualified_name catalog db_schema table)
      ≡ some (name_parts catalog db_schema table)
lex_name-quote_qualified_name catalog db_schema table =
    let (pos, three) = length-name_parts catalog db_schema table in
    rw (quoted_parts catalog db_schema table)
      (lex_parts (name_parts catalog db_schema table) pos three)
