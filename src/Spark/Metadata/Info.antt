-- ===== src/Spark/Metadata/Info.antt =====
-- The rows of GetInfo.
use adbc_driver_spark.Base.{
  ℕ, Bool, false, ◌||◌, ◌≡◌, ◌≢◌, refl, sym, ap₂, ◌∙◌, Option, none, some, List, [], ◌∷◌, ◌++◌, All,
  arith, ◌==◌, ok, err, if◌then◌else◌, Bool-cases, inl, inr, if_true, if_false,
}
use adbc_driver_spark.Base.Text.{Text, codes}
use adbc_driver_spark.Adbc.{Go}
use adbc_driver_spark.Connect.Config.{Config}
use adbc_driver_spark.Connect.Client.{Service, Client, server_spark_version}
use adbc_driver_spark.Spark.Metadata.{
  InfoMap, info_lookup, requests_version, add_version, add_row, info_rows, string_info, build_info,
}

-- What the server has told of its version: nothing if it failed or if the text is empty.
abbrev version_known : Go Text → Option Text
version_known (err e) = none
version_known (ok []) = none
version_known (ok (c ∷ s)) = some (c ∷ s)

-- The text of each info code, by the numbers of c/arrow-adbc/adbc.h, for the versions of the driver
-- and of Arrow and the answer of the server.
abbrev pub info_text : Text → Text → Go Text → ℕ → Option Text
info_text version arrow_version v code =
    if code == 0
    then some (codes "Apache Spark")
    else if code == 1
    then version_known v
    else if code == 2
    then some arrow_version
    else if code == 100
    then some (codes "ADBC Spark Connect Driver (Go)")
    else if code == 101
    then some version
    else if code == 102
    then some arrow_version
    else none

abbrev pub row_for : ℕ → Option Text → List (ℕ × Text)
row_for code none = []
row_for code (some t) = (code, t) ∷ []

-- One row for each of the given codes that has a text, in the given order and as often.
abbrev pub rows_for : (ℕ → Option Text) → List ℕ → List (ℕ × Text)
rows_for f [] = []
rows_for f (code ∷ more) = row_for code (f code) ++ rows_for f more

add_row-row_for :
    (code : ℕ) (o : Option Text) (rows : List (ℕ × Text))
    → add_row code o rows ≡ row_for code o ++ rows
add_row-row_for code none rows = refl
add_row-row_for code (some t) rows = refl

-- Whether a code is among the given ones.
abbrev pub is_given : ℕ → List ℕ → Bool
is_given x [] = false
is_given x (code ∷ more) = x == code || is_given x more

-- The loop over the codes, with a map that agrees with `f` on them.
info_rows-rows_for :
    (m : InfoMap) (f : ℕ → Option Text) (codes' : List ℕ)
    → All (λ code. info_lookup code m ≡ f code) codes'
    → info_rows m codes' ≡ rows_for f codes'
unfolding info_rows
info_rows-rows_for m f [] h = refl
info_rows-rows_for m f (c ∷ cs) (e, h) =
    ap₂ (add_row c) e (info_rows-rows_for m f cs h) ∙ add_row-row_for c (f c) (rows_for f cs)

string_info-info_text :
    (version arrow_version : Text) (v : Go Text) (code : ℕ)
    → code ≢ 1
    → info_lookup code (string_info version arrow_version) ≡ info_text version arrow_version v code
unfolding string_info info_lookup
string_info-info_text version arrow_version v code n = ground arith

add_version-info_text :
    (version arrow_version : Text) (v : Go Text) (code : ℕ)
    → info_lookup code (add_version (string_info version arrow_version) v)
      ≡ info_text version arrow_version v code
unfolding string_info info_lookup
add_version-info_text version arrow_version (err e) code = ground arith
add_version-info_text version arrow_version (ok []) code = ground arith
add_version-info_text version arrow_version (ok (c ∷ s)) code = ground arith

All-of : {P : ℕ → Type 0} (l : List ℕ) → ((x : ℕ) → P x) → All P l
All-of [] f = tt
All-of (x ∷ xs) f = (f x, All-of xs f)

All-map : {P Q : ℕ → Type 0} → ((x : ℕ) → P x → Q x) → (l : List ℕ) → All P l → All Q l
All-map f [] h = tt
All-map f (x ∷ xs) (p, h) = (f x p, All-map f xs h)

is_given-requests_version : (l : List ℕ) → requests_version l ≡ is_given 1 l
unfolding requests_version
is_given-requests_version [] = refl
is_given-requests_version (c ∷ cs) = rw (is_given-requests_version cs) (ground arith)

not_given-All : (l : List ℕ) → is_given 1 l ≡ false → All (λ code. code ≢ 1) l
not_given-All [] h = tt
not_given-All (c ∷ cs) h = (ground arith, not_given-All cs (ground arith))

-- When info codes are given, the rows are those of the given codes that have a text, in the given
-- order and as often, each with its text; the code 1 has one only if the server tells its version and
-- that is not empty. The server is asked for its version exactly if the code 1 is given; otherwise the
-- client is left as it was.
pub build_info-rows :
    (svc : Service) (cfg : Config) (version arrow_version : Text) (c : Client) (code : ℕ)
    (more : List ℕ)
    → let (c', v) = server_spark_version svc cfg c in
      build_info svc cfg version arrow_version c (code ∷ more) ≡ (
        if is_given 1 (code ∷ more) then c' else c,
        rows_for (info_text version arrow_version v) (code ∷ more),
      )
unfolding build_info
build_info-rows svc cfg version arrow_version c code more =
    let (c', v) = server_spark_version svc cfg c in
    let l = code ∷ more in
    let spec = info_text version arrow_version v in
    let full = add_version (string_info version arrow_version) v in
    let same = is_given-requests_version l in
    elim (Bool-cases (is_given 1 l)) [
      | inl given ↦
          if_true _ _ (same ∙ given)
          ∙ ap₂ (λ x y. (x, y)) (sym (if_true _ _ given))
              (info_rows-rows_for full spec l
                (All-of l (add_version-info_text version arrow_version v)))
      | inr not' ↦
          if_false _ _ (same ∙ not')
          ∙ ap₂ (λ x y. (x, y)) (sym (if_false _ _ not'))
              (info_rows-rows_for (string_info version arrow_version) spec l
                (All-map (string_info-info_text version arrow_version v) l (not_given-All l not')))
    ]
