-- ===== src/Connect/Client/Calls.antt =====
-- The calls that a client makes: all in its session, and ReleaseSession at most once.
use adbc_driver_spark.Base.{
  ℕ, suc, Bool, true, false, ◌||◌, ◌≡◌, refl, sym, ap, subst, ◌∙◌, Option, List, [], ◌∷◌,
  if◌then◌else◌, All, inl, inr, Bool-cases, if_true, if_false,
}
use adbc_driver_spark.Base.Text.{Text}
use adbc_driver_spark.Adbc.{GoError}
use adbc_driver_spark.Spark.Params.{Literal}
use adbc_driver_spark.Connect.Config.{Config}
use adbc_driver_spark.Connect.Client.{
  Operation, execute_sql, set_conf, get_conf, spark_version, interrupt_all, release_session, Call,
  Service, Client, dial, call_of, sent, execute, limit_zero, schema_of, set_runtime_conf,
  get_runtime_conf, server_spark_version, interrupt, close,
}
use adbc_driver_spark.Connect.Client.Same.{
  Same, conf_value-Same, config_reply-Same, execute-Same, interrupt_reply-Same, schema_of-Same,
  version_reply-Same,
}

abbrev is_release : Operation → Bool
is_release release_session = true
is_release _ = false

-- How often ReleaseSession was called.
abbrev pub releases : List Call → ℕ
releases [] = 0
releases (c ∷ cs) = let rest = releases cs in if is_release c.operation then suc rest else rest

-- The methods of a client; each is called with the configuration of that moment.
pub data Request : Type 0 where
  do_execute : Text → List Literal → Request
  do_schema : Text → Request
  do_set : Text → Text → Request
  do_get : Text → Request
  do_version do_interrupt do_close : Request

abbrev pub run_request : Service → Config → Client → Request → Client
run_request svc cfg c (do_execute q args) = (execute svc cfg c q args).0
run_request svc cfg c (do_schema q) = (schema_of svc cfg c q).0
run_request svc cfg c (do_set k v) = (set_runtime_conf svc cfg c k v).0
run_request svc cfg c (do_get k) = (get_runtime_conf svc cfg c k).0
run_request svc cfg c do_version = (server_spark_version svc cfg c).0
run_request svc cfg c do_interrupt = (interrupt svc cfg c).0
run_request svc cfg c do_close = (close svc cfg c).0

abbrev pub run_requests : Service → Client → List (Config × Request) → Client
run_requests svc c [] = c
run_requests svc c ((cfg, q) ∷ qs) = run_requests svc (run_request svc cfg c q) qs

-- ReleaseSession was called once if the client is closed, and never if it is not; every call was
-- made in the client's session.
pub record IsTidy (session : Text) (c : Client) : Type 0 where
  pub in_session : c.session_id ≡ session
  pub released_once : releases c.calls ≡ (if c.closed then 1 else 0)
  pub all_in_session : All (λ call. call.session_id ≡ session) c.calls

Same-IsTidy : {s : Text} {c d : Client} → Same c d → IsTidy s c → IsTidy s d
Same-IsTidy {s} f t = record {
  in_session = f.session ∙ t.in_session;
  released_once =
      ap releases f.calls_same ∙ t.released_once ∙ ap (λ b. if b then 1 else 0) (sym f.closed_same);
  all_in_session =
      subst (λ l. All (λ (call : Call). call.session_id ≡ s) l) (sym f.calls_same) t.all_in_session;
}

sent-IsTidy :
    {s : Text} (cfg : Config) (c : Client) (op : Operation)
    → is_release op ≡ false
    → IsTidy s c
    → IsTidy s (sent cfg c op)
unfolding sent call_of
sent-IsTidy cfg c op h t = record {
  in_session = t.in_session;
  released_once = rw h (t.released_once);
  all_in_session = (t.in_session, t.all_in_session);
}

close-IsTidy :
    {s : Text} (svc : Service) (cfg : Config) (c : Client)
    → IsTidy s c
    → IsTidy s (close svc cfg c).0
unfolding close sent call_of
close-IsTidy {s} svc cfg c t = elim (Bool-cases c.closed) [
  | inl yes' ↦ subst (λ (p : Client × Option GoError). IsTidy s p.0) (sym (if_true _ _ yes')) t
  | inr open' ↦
      subst (λ (p : Client × Option GoError). IsTidy s p.0) (sym (if_false _ _ open'))
        (record {
          in_session = t.in_session;
          released_once = ap suc (t.released_once ∙ if_false _ _ open');
          all_in_session = (t.in_session, t.all_in_session);
        })
]

run_request-IsTidy :
    {s : Text} (svc : Service) (cfg : Config) (c : Client) (q : Request)
    → IsTidy s c
    → IsTidy s (run_request svc cfg c q)
unfolding set_runtime_conf get_runtime_conf server_spark_version interrupt
run_request-IsTidy svc cfg c (do_execute q args) t =
    Same-IsTidy (execute-Same svc cfg c q args) (sent-IsTidy cfg c (execute_sql q args) refl t)
run_request-IsTidy svc cfg c (do_schema q) t =
    Same-IsTidy (schema_of-Same svc cfg c q)
      (sent-IsTidy cfg c (execute_sql (limit_zero q) []) refl t)
run_request-IsTidy svc cfg c (do_set k v) t =
    Same-IsTidy (config_reply-Same _ _) (sent-IsTidy cfg c (set_conf k v) refl t)
run_request-IsTidy svc cfg c (do_get k) t =
    Same-IsTidy (conf_value-Same _ k _) (sent-IsTidy cfg c (get_conf k) refl t)
run_request-IsTidy svc cfg c do_version t =
    Same-IsTidy (version_reply-Same _ _) (sent-IsTidy cfg c spark_version refl t)
run_request-IsTidy svc cfg c do_interrupt t =
    Same-IsTidy (interrupt_reply-Same _ _) (sent-IsTidy cfg c interrupt_all refl t)
run_request-IsTidy svc cfg c do_close t = close-IsTidy svc cfg c t

run_requests-Tidy :
    {s : Text} (svc : Service) (c : Client) (qs : List (Config × Request))
    → IsTidy s c
    → IsTidy s (run_requests svc c qs)
run_requests-Tidy svc c [] t = t
run_requests-Tidy svc c ((cfg, q) ∷ qs) t =
    run_requests-Tidy svc (run_request svc cfg c q) qs (run_request-IsTidy svc cfg c q t)

abbrev is_close : Request → Bool
is_close do_close = true
is_close _ = false

-- Whether Close is among the requests.
abbrev pub asks_close : List (Config × Request) → Bool
asks_close [] = false
asks_close ((_, q) ∷ qs) = is_close q || asks_close qs

close-closed : (svc : Service) (cfg : Config) (c : Client) → (close svc cfg c).0.closed ≡ true
unfolding close sent
close-closed svc cfg c = elim (Bool-cases c.closed) [
  | inl yes' ↦ ap (λ (p : Client × Option GoError). p.0.closed) (if_true _ _ yes') ∙ yes'
  | inr open' ↦ ap (λ (p : Client × Option GoError). p.0.closed) (if_false _ _ open')
]

-- No request but Close changes whether the client is closed.
run_request-same_closed :
    (svc : Service) (cfg : Config) (c : Client) (q : Request)
    → is_close q ≡ false
    → (run_request svc cfg c q).closed ≡ c.closed
unfolding set_runtime_conf get_runtime_conf server_spark_version interrupt sent
run_request-same_closed svc cfg c (do_execute q args) h =
    (execute-Same svc cfg c q args).closed_same
run_request-same_closed svc cfg c (do_schema q) h = (schema_of-Same svc cfg c q).closed_same
run_request-same_closed svc cfg c (do_set k v) h = (config_reply-Same _ _).closed_same
run_request-same_closed svc cfg c (do_get k) h = (conf_value-Same _ k _).closed_same
run_request-same_closed svc cfg c do_version h = (version_reply-Same _ _).closed_same
run_request-same_closed svc cfg c do_interrupt h = (interrupt_reply-Same _ _).closed_same
run_request-same_closed svc cfg c do_close h = cc

run_request-closes :
    (svc : Service) (cfg : Config) (c : Client) (q : Request)
    → is_close q ≡ true
    → (run_request svc cfg c q).closed ≡ true
run_request-closes svc cfg c do_close h = close-closed svc cfg c
run_request-closes svc cfg c (do_execute q args) h = cc
run_request-closes svc cfg c (do_schema q) h = cc
run_request-closes svc cfg c (do_set k v) h = cc
run_request-closes svc cfg c (do_get k) h = cc
run_request-closes svc cfg c do_version h = cc
run_request-closes svc cfg c do_interrupt h = cc

run_requests-stay_closed :
    (svc : Service) (c : Client) (qs : List (Config × Request))
    → c.closed ≡ true
    → (run_requests svc c qs).closed ≡ true
run_requests-stay_closed svc c [] h = h
run_requests-stay_closed svc c ((cfg, q) ∷ qs) h =
    run_requests-stay_closed svc (run_request svc cfg c q) qs (elim (Bool-cases (is_close q)) [
      | inl is ↦ run_request-closes svc cfg c q is
      | inr not' ↦ run_request-same_closed svc cfg c q not' ∙ h
    ])

run_requests-closed :
    (svc : Service) (c : Client) (qs : List (Config × Request))
    → c.closed ≡ false
    → (run_requests svc c qs).closed ≡ asks_close qs
run_requests-closed svc c [] h = h
run_requests-closed svc c ((cfg, q) ∷ qs) h = elim (Bool-cases (is_close q)) [
  | inl is ↦
      run_requests-stay_closed svc (run_request svc cfg c q) qs (run_request-closes svc cfg c q is)
      ∙ ap (λ b. b || asks_close qs) (sym is)
  | inr not' ↦
      run_requests-closed svc (run_request svc cfg c q) qs
        (run_request-same_closed svc cfg c q not' ∙ h)
      ∙ ap (λ b. b || asks_close qs) (sym not')
]

-- Whatever requests are made of a dialled client, with whatever answers and changes of the
-- configuration: ReleaseSession is called exactly once if Close is among the requests, however often,
-- and never otherwise; and every call carries the session id that `Dial` chose.
pub run_requests-IsTidy :
    (svc : Service) (cfg : Config) (uuid : Text) (qs : List (Config × Request))
    → let c = run_requests svc (dial cfg uuid) qs in
      IsTidy (dial cfg uuid).session_id c × (releases c.calls ≡ (if asks_close qs then 1 else 0))
unfolding dial
run_requests-IsTidy svc cfg uuid qs =
    let t =
      run_requests-Tidy svc (dial cfg uuid) qs
        (record { in_session = refl; released_once = refl; all_in_session = tt }) in
    (
      t,
      t.released_once
          ∙ ap (λ b. if b then 1 else 0) (run_requests-closed svc (dial cfg uuid) qs refl),
    )
