-- ===== src/Spark/Database/Options.antt =====
-- What one option does to a configuration.
use adbc_driver_spark.Base.{
  ℕ, Bool, true, false, ◌||◌, ◌≡◌, ◌≢◌, ◌⊎◌, ◌↔◌, inl, inr, refl, sym, ap, ◌∙◌, Option, none, some,
  [], ◌∷◌, ◌++◌, ok, err, arith, if◌then◌else◌, Bool-cases,
}
use mathlib.Core.Bool.{false≢true}
use adbc_driver_spark.Base.Text.{Text, codes, one_of, cut_prefix, has_prefix, text_eq, text_eq_iff}
use adbc_driver_spark.Adbc.{GoError, Go}
use adbc_driver_spark.Connect.Config.{Config, Headers, insert, lookup, parse_bool}
use adbc_driver_spark.Spark.Database.{
  option_key_uri, option_key_username, option_key_password, option_key_token, option_key_user_id,
  option_key_user_agent, option_key_session_id, option_key_tls_enabled, option_key_header_prefix,
  nonempty, apply_other_option, tls_option, apply_option, apply_options,
}

pub lookup-insert :
    (name value other : Text) (headers : Headers)
    → lookup other (insert name value headers)
      ≡ (if text_eq name other then some value else lookup other headers)
unfolding lookup insert
lookup-insert name value other [] = refl
lookup-insert name value other ((old, was) ∷ headers) = ground (
  arith,
  lookup-insert name value other headers,
  text_eq_iff old name,
  text_eq_iff old other,
  text_eq_iff name other,
)

header_option :
    (c : Config) (x : ℕ) (name value : Text)
    → apply_option c (option_key_header_prefix ++ x ∷ name) value
      ≡ ok (record c { headers = insert (x ∷ name) value c.headers })
unfolding apply_option apply_other_option one_of text_eq cut_prefix
header_option c x name value = refl

-- The headers of a result that is no error.
abbrev pub headers_of : Go Config → Headers
headers_of (ok c) = c.headers
headers_of (err e) = []

-- An option "adbc.spark.headers." with a name behind it sets the header of that name to the value,
-- whatever the name, and leaves every other header alone.
pub apply_option_header :
    (c : Config) (x : ℕ) (name value j : Text)
    → lookup j (headers_of (apply_option c (option_key_header_prefix ++ x ∷ name) value))
      ≡ (if text_eq (x ∷ name) j then some value else lookup j c.headers)
apply_option_header c x name value j =
    ap (λ r. lookup j (headers_of r)) (header_option c x name value)
    ∙ lookup-insert (x ∷ name) value j c.headers

-- The keys with a meaning of their own, but the one for TLS.
abbrev pub is_plain : Text → Bool
is_plain key =
    one_of (option_key_uri ∷ codes "adbc.spark.uri" ∷ []) key
    || one_of (option_key_token ∷ option_key_password ∷ []) key
    || one_of (option_key_user_id ∷ option_key_username ∷ []) key
    || one_of (option_key_user_agent ∷ []) key
    || one_of (option_key_session_id ∷ []) key

abbrev pub is_tls : Text → Bool
is_tls key = one_of (option_key_tls_enabled ∷ []) key

-- The name of a header option, if it has one.
abbrev pub header_name : Text → Option Text
header_name key = nonempty (cut_prefix option_key_header_prefix key)

abbrev pub Fails : Go Config → Type 0
Fails (ok _) = ⊥
Fails (err _) = Unit

-- The first five cases of the switch, at any tests and outcomes.
abbrev five : {A : Type 0} → Bool → Bool → Bool → Bool → Bool → A → A → A → A → A → A → A
five t1 t2 t3 t4 t5 a b c d e rest =
    if t1 then a else if t2 then b else if t3 then c else if t4 then d else if t5 then e else rest

five_none :
    {A : Type 0} (t1 t2 t3 t4 t5 : Bool) (a b c d e rest : A)
    → (t1 || t2 || t3 || t4 || t5) ≡ false
    → five t1 t2 t3 t4 t5 a b c d e rest ≡ rest
five_none false false false false false a b c d e rest h = refl
five_none _ _ _ _ _ a b c d e rest h = cc

five_some :
    (t1 t2 t3 t4 t5 : Bool) (a b c d e : Config) (rest : Go Config)
    → (t1 || t2 || t3 || t4 || t5) ≡ true
    → ¬ Fails (five t1 t2 t3 t4 t5 (ok a) (ok b) (ok c) (ok d) (ok e) rest)
five_some false false false false false a b c d e rest h = cc
five_some _ _ _ _ _ a b c d e rest h = λ f. f

plain_key :
    (c : Config) (key value : Text) → is_plain key ≡ true → ¬ Fails (apply_option c key value)
unfolding apply_option
plain_key c key value h =
    five_some (one_of (option_key_uri ∷ codes "adbc.spark.uri" ∷ []) key)
      (one_of (option_key_token ∷ option_key_password ∷ []) key)
      (one_of (option_key_user_id ∷ option_key_username ∷ []) key)
      (one_of (option_key_user_agent ∷ []) key) (one_of (option_key_session_id ∷ []) key) c
      (record c { token = value }) (record c { user_id = value }) (record c { user_agent = value })
      (record c { session_id = value })
      (if is_tls key then tls_option c value (parse_bool value) else apply_other_option c key value)
      h

other_key :
    (c : Config) (key value : Text)
    → is_plain key ≡ false
    → apply_option c key value ≡ (
        if is_tls key
        then tls_option c value (parse_bool value)
        else apply_other_option c key value)
unfolding apply_option
other_key c key value h =
    five_none (one_of (option_key_uri ∷ codes "adbc.spark.uri" ∷ []) key)
      (one_of (option_key_token ∷ option_key_password ∷ []) key)
      (one_of (option_key_user_id ∷ option_key_username ∷ []) key)
      (one_of (option_key_user_agent ∷ []) key) (one_of (option_key_session_id ∷ []) key) (ok c)
      (ok (record c { token = value })) (ok (record c { user_id = value }))
      (ok (record c { user_agent = value })) (ok (record c { session_id = value }))
      (if is_tls key then tls_option c value (parse_bool value) else apply_other_option c key value)
      h

other_option-Fails :
    (c : Config) (key value : Text)
    → Fails (apply_other_option c key value)
      ↔ ((has_prefix (codes "adbc.spark.") key ≡ true) × (header_name key ≡ none))
unfolding apply_other_option
other_option-Fails c key value = ground arith

tls_option-Fails :
    (c : Config) (value : Text) (b : Option Bool) → Fails (tls_option c value b) ↔ (b ≡ none)
tls_option-Fails c value none = (λ _. refl, λ _. tt)
tls_option-Fails c value (some b) = (λ f. absurd f, λ e. cc)

-- An option fails exactly in two cases: it is the TLS option and its value is no Boolean, or its key
-- begins with "adbc.spark." and is none of the known keys and no header with a name.
pub apply_option-Fails :
    (c : Config) (key value : Text)
    → Fails (apply_option c key value) ↔ (
        (is_plain key ≡ false)
        × (((is_tls key ≡ true) × (parse_bool value ≡ none))
            ⊎ ((is_tls key ≡ false)
                × (has_prefix (codes "adbc.spark.") key ≡ true)
                × (header_name key ≡ none))))
apply_option-Fails c key value = elim (Bool-cases (is_plain key)) [
  | inl p ↦ (λ f. absurd (plain_key c key value p f), λ r. absurd (false≢true (sym r.0 ∙ p)))
  | inr p ↦
      rw (other_key c key value p) (
        ground (arith, tls_option-Fails c value (parse_bool value), other_option-Fails c key value))
]

-- With the token option and the password option in one map, for two different values, the outcome
-- depends on the order in which Go visits the map.
pub apply_options_order :
    (c : Config) (a b : Text)
    → a ≢ b
    → apply_options c ((option_key_token, a) ∷ (option_key_password, b) ∷ [])
      ≢ apply_options c ((option_key_password, b) ∷ (option_key_token, a) ∷ [])
unfolding apply_options apply_option one_of text_eq
apply_options_order c a b n e = n (sym (ap (λ (p : Config × Option GoError). p.0.token) e))
