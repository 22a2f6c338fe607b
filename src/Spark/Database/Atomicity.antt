-- ===== src/Spark/Database/Atomicity.antt =====
-- What `SetOptions` leaves behind, on success and on an error.
use adbc_driver_spark.Base.{
  ℕ, zero, suc, true, false, ◌≡◌, ◌≢◌, refl, sym, ap, subst, ◌∙◌, Option, none, some, List, [], ◌∷◌,
  ◌++◌, ok, err, if_true, if_false, is_nil, get_elem?,
}
use adbc_driver_spark.Base.Text.{Text, Unicode}
use adbc_driver_spark.Adbc.{GoError, Go}
use adbc_driver_spark.Connect.Config.{Config, Headers, parse_connection_string}
use adbc_driver_spark.Spark.Database.{
  Database, write, uri_of, keep_fresh, keep_in_place, set_parsed, set_current, set_options,
  apply_option, apply_options, stop_or_go,
}

get_elem?-append :
    (xs ys : List Config) (a : ℕ) {c : Config}
    → get_elem? xs a ≡ some c
    → get_elem? (xs ++ ys) a ≡ some c
get_elem?-append [] ys a e = cc
get_elem?-append (x ∷ xs) ys zero e = e
get_elem?-append (x ∷ xs) ys (suc a) e = get_elem?-append xs ys a e

get_elem?-write :
    (xs : List Config) (a : ℕ) (c : Config) {d : Config}
    → get_elem? xs a ≡ some d
    → get_elem? (write xs a c) a ≡ some c
get_elem?-write [] a c e = cc
get_elem?-write (x ∷ xs) zero c e = refl
get_elem?-write (x ∷ xs) (suc a) c e = get_elem?-write xs a c e

-- Nothing that a client or the database could read before has changed.
abbrev pub Keeps : Database → Database → Type 0
Keeps d d' = (a : ℕ) (c : Config) → get_elem? d.store a ≡ some c → get_elem? d'.store a ≡ some c

keep_fresh-Keeps :
    (d : Database) (p : Config × Option GoError)
    → Keeps d (keep_fresh d p).0 × ((keep_fresh d p).1 ≢ none → (keep_fresh d p).0.cfg ≡ d.cfg)
keep_fresh-Keeps d (c, none) =
    (λ a x e. get_elem?-append d.store (c ∷ []) a e, λ n. absurd (n refl))
keep_fresh-Keeps d (c, some e) = (λ a x h. get_elem?-append d.store (c ∷ []) a h, λ _. refl)

set_parsed-Keeps :
    (d : Database) (opts : Headers) (r : Go Config)
    → Keeps d (set_parsed d opts r).0
      × ((set_parsed d opts r).1 ≢ none → (set_parsed d opts r).0.cfg ≡ d.cfg)
set_parsed-Keeps d opts (err e) = (λ a c h. h, λ _. refl)
set_parsed-Keeps d opts (ok parsed) = keep_fresh-Keeps d (apply_options parsed opts)

-- With a URI among the options, `set_options` changes no existing configuration, so that connections
-- that are open are not affected; and if it fails, the database keeps the configuration in use.
pub set_options_uri :
    (u : Unicode) (d : Database) (opts : Headers)
    → is_nil (uri_of opts) ≡ false
    → Keeps d (set_options u d opts).0
      × ((set_options u d opts).1 ≢ none → (set_options u d opts).0.cfg ≡ d.cfg)
unfolding set_options
set_options_uri u d opts h =
    subst (λ (p : Database × Option GoError). Keeps d p.0 × (p.1 ≢ none → p.0.cfg ≡ d.cfg))
      (sym (if_false _ _ h)) (set_parsed-Keeps d opts (parse_connection_string u (uri_of opts)))

apply_options-step :
    (c : Config) (k v : Text) (opts : Headers)
    → apply_options c ((k, v) ∷ opts)
      ≡ stop_or_go c (apply_option c k v) (λ c'. apply_options c' opts)
unfolding apply_options
apply_options-step c k v opts = refl

stop_or_go-append :
    (c : Config) (r : Go Config) (f g : Config → Config × Option GoError) {c' : Config}
    {p : Config × Option GoError}
    → stop_or_go c r f ≡ (c', none)
    → ((x : Config) → f x ≡ (c', none) → g x ≡ p)
    → stop_or_go c r g ≡ p
stop_or_go-append c (err e) f g h k = cc
stop_or_go-append c (ok x) f g h k = k x h

apply_options-append :
    (opts : Headers) (c : Config) (k v : Text) {c' : Config} {e : GoError}
    → apply_options c opts ≡ (c', none)
    → apply_option c' k v ≡ err e
    → apply_options c (opts ++ (k, v) ∷ []) ≡ (c', some e)
apply_options-append [] c k v {c'} {e} h x =
    let same : c ≡ c' = unfold apply_options in cc in
    apply_options-step c k v []
    ∙ ap (λ r. stop_or_go c r (λ y. apply_options y [])) (ap (λ y. apply_option y k v) same ∙ x)
    ∙ ap (λ y. (y, some e)) same
apply_options-append ((j, w) ∷ opts) c k v h x =
    apply_options-step c j w (opts ++ (k, v) ∷ [])
    ∙ stop_or_go-append c (apply_option c j w) (λ y. apply_options y opts)
        (λ y. apply_options y (opts ++ (k, v) ∷ [])) (sym (apply_options-step c j w opts) ∙ h)
        (λ y b. apply_options-append opts y k v b x)

set_current-some :
    (d : Database) (opts : Headers) (a : ℕ) {c : Config}
    → get_elem? d.store a ≡ some c
    → set_current d opts (some a) ≡ keep_in_place d a (apply_options c opts)
set_current-some d opts a e = rw (e, set_current)

-- Without a URI the options are applied to the configuration in use, in place: when the last of
-- them fails after the others have succeeded, its error is returned, and the others stay applied in
-- the configuration that is in use.
pub set_options_in_place :
    (u : Unicode) (d : Database) (opts : Headers) (a : ℕ) (k v : Text) {c c' : Config} {e : GoError}
    → is_nil (uri_of (opts ++ (k, v) ∷ [])) ≡ true
    → d.cfg ≡ some a
    → get_elem? d.store a ≡ some c
    → apply_options c opts ≡ (c', none)
    → apply_option c' k v ≡ err e
    → ((set_options u d (opts ++ (k, v) ∷ [])).1 ≡ some e)
      × (get_elem? (set_options u d (opts ++ (k, v) ∷ [])).0.store a ≡ some c')
unfolding set_options
set_options_in_place u d opts a k v {c} {c'} {e} h used there before fails =
    let all = opts ++ (k, v) ∷ [] in
    let run : set_options u d all ≡ keep_in_place d a (c', some e) =
      if_true _ _ h
      ∙ ap (set_current d all) used
      ∙ set_current-some d all a there
      ∙ ap (keep_in_place d a) (apply_options-append opts c k v before fails) in
    (
      ap (λ (p : Database × Option GoError). p.1) run,
      ap (λ (p : Database × Option GoError). get_elem? p.0.store a) run
          ∙ get_elem?-write d.store a c' there,
    )
