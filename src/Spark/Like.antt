-- ===== src/Spark/Like.antt =====
-- Name patterns of driver/spark/objects.go: `equalFold`, `likeMatch`, `matchesPattern`,
-- `filterByPattern`, `isPattern` and `likeClause`. Texts are lists of runes here, as the source
-- converts both sides by `[]rune`.
pub mod Fold
pub mod Matches
pub mod Decide
pub mod Clause
use adbc_driver_spark.Base.{
  ℕ, zero, suc, ◌+◌, ◌*◌, Bool, true, false, not, ◌&&◌, ◌||◌, Option, none, some, List, [], ◌∷◌,
  ◌++◌, leb, ◌==◌, if◌then◌else◌, length, keep, is_nil,
}
use adbc_driver_spark.Base.Text.{Text, Unicode, codes}

-- No orbit of `unicode.SimpleFold` has more runes than there are code points.
abbrev pub fold_limit : ℕ
fold_limit = 1114112

-- the loop of `equalFold`, at the rune `r` of the orbit of `a`
unfoldable pub fold_loop : ℕ → Unicode → ℕ → ℕ → ℕ → Bool
fold_loop zero u a b r = false
fold_loop (suc f) u a b r =
    let rest = fold_loop f u a b (u.simple_fold r) in
    if r == a then false else if r == b then true else rest

unfoldable pub equal_fold : Unicode → ℕ → ℕ → Bool
equal_fold u a b = if a == b then true else fold_loop fold_limit u a b (u.simple_fold a)

-- p[i] == '_' || equalFold(p[i], str[j])
unfoldable pub single : Unicode → ℕ → ℕ → Bool
single u r c = r == b'_' || equal_fold u r c

-- the last loop of `likeMatch` with its final test
unfoldable pub only_percents : Text → Bool
only_percents [] = true
only_percents (r ∷ p) = r == b'%' && only_percents p

-- `star` and `mark`, when `star` is not -1: the pattern behind the star, and the text from `mark`.
abbrev pub Star : Type 0
Star = Option (Text × Text)

-- A round of the loop at p[i:], str[j:] and the star. `none` means that the fuel ran out.
abbrev pub Round : Type 0
Round = Text → Text → Star → Option Bool

-- the last two branches: one more rune for the star, or no match
unfoldable pub back_to_star : Star → Round → Option Bool
back_to_star none next = some false
back_to_star (some (sp, [])) next = next sp [] (some (sp, []))
back_to_star (some (sp, _ ∷ ss)) next = next sp ss (some (sp, ss))

unfoldable pub like_loop : Unicode → ℕ → Round
like_loop u zero p s star = none
like_loop u (suc f) p [] star = some (only_percents p)
like_loop u (suc f) [] (c ∷ s) star = back_to_star star (like_loop u f)
like_loop u (suc f) (r ∷ p) (c ∷ s) star =
    let onward = like_loop u f p s star in
    let at_star = like_loop u f p (c ∷ s) (some (p, c ∷ s)) in
    if single u r c
    then onward
    else if r == b'%'
    then at_star
    else back_to_star star (like_loop u f)

abbrev pub like_fuel : Text → Text → ℕ
like_fuel p s = (length s + 1) * (length p + 1)

abbrev pub answer : Option Bool → Bool
answer none = false
answer (some b) = b

unfoldable pub like_match : Unicode → Text → Text → Bool
unfolding like_loop back_to_star single equal_fold fold_loop only_percents
like_match u pattern s = answer (like_loop u (like_fuel pattern s) pattern s none)

-- A pattern is a `*string`: `none` is nil.
unfoldable pub matches_pattern : Unicode → Option Text → Text → Bool
matches_pattern u none name = true
matches_pattern u (some p) name = is_nil p || like_match u p name

unfoldable pub filter_by_pattern : Unicode → List Text → Option Text → List Text
filter_by_pattern u names none = names
filter_by_pattern u names (some p) = if is_nil p then names else keep (like_match u p) names

unfoldable pub is_pattern : Text → Bool
is_pattern [] = false
is_pattern (c ∷ s) = c == b'%' || c == b'_' || is_pattern s

-- The runes that `likeClause` writes as they are.
unfoldable pub is_word : ℕ → Bool
is_word r = (leb b'a' r && leb r b'z') || (leb b'A' r && leb r b'Z') || (leb b'0' r && leb r b'9')

-- The `switch` of `likeClause`: what is written for a rune, or `none` where it returns "".
unfoldable pub like_rune : ℕ → Option ℕ
unfolding is_word
like_rune r =
    if r == b'%'
    then some b'*'
    else if r == b'_'
    then some b'.'
    else if is_word r
    then some r
    else none

abbrev pub cons? : Option ℕ → Option Text → Option Text
cons? none t = none
cons? (some b) none = none
cons? (some b) (some t) = some (b ∷ t)

-- The loop of `likeClause`: Spark's pattern, if every rune can be sent.
unfoldable pub like_body : Text → Option Text
unfolding like_rune
like_body [] = some []
like_body (r ∷ p) = cons? (like_rune r) (like_body p)

abbrev pub like_text : Option Text → Text
like_text none = []
like_text (some like) = codes " LIKE '" ++ (like ++ b'\'' ∷ [])

unfoldable pub like_clause : Option Text → Text
unfolding like_body
like_clause none = []
like_clause (some p) = if is_nil p then [] else like_text (like_body p)
