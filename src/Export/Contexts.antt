-- ===== src/Export/Contexts.antt =====
-- The contexts that the functions of one statement make and cancel.
pub mod Runs
use adbc_driver_spark.Base.{
  ℕ, zero, suc, ◌+◌, ◌-◌, Bool, true, false, ◌≡◌, refl, sym, ap, subst, ◌∙◌, Option, none, some,
  List, [], ◌∷◌, ◌++◌, Result, ok, err, arith, inl, inr, Bool-cases, if◌then◌else◌, get_elem?,
}
use adbc_driver_spark.Base.Text.{Text, codes}
use adbc_driver_spark.Adbc.{Status, GoError, Go}
use adbc_driver_spark.Connect.Client.{ResultReader}
use adbc_driver_spark.Spark.Database.{Connection}
use adbc_driver_spark.Spark.Statement.{
  Statement, Params, bind, bind_stream, execute_query, execute_update, execute_partitions,
  get_parameter_schema, prepare, set_option, set_sql_query, set_substrait_plan,
}
use adbc_driver_spark.Export.Errors.{AdbcError}
use adbc_driver_spark.Export.World.{
  Env, GoConnection, World, CConn, CStmt, Pointer, Output, no_output, Reply, reply, success,
  answer_error, complain, poison, recovered, also, cancel_context, new_context, checked, allocated,
  check_conn_init, check_stmt_alloc, check_stmt_init, stmt_of, refusal, panicked_format,
}
use adbc_driver_spark.Export.Statements.{
  made_statement, statement_on, make_stmt, statement_new, statement_release, statement_cancel,
  holding, statement_call, statement_context_call, statement_prepare, statement_set_sql_query,
  statement_set_substrait_plan, statement_set_option, statement_bind, statement_bind_stream,
  statement_get_parameter_schema, statement_execute_partitions, statement_execute_query,
  query_output, update_output, after_call, execute_on, drop_statement,
}
use adbc_driver_spark.Export.Statements.Options.{
  unsupported_method, statement_get_option, statement_get_option_bytes, statement_get_option_double,
  statement_get_option_int, statement_set_option_bytes, statement_set_option_double,
  statement_set_option_int, statement_execute_schema,
}
use adbc_driver_spark.Export.Databases.Phases.{OptionCall}
use adbc_driver_spark.Export.Databases.Phases
use adbc_driver_spark.Export.Poisoned.{StmtCall, stmt_call, stmt_option_call}
use adbc_driver_spark.Export.Poisoned

-- The context of a handle.
abbrev pub context_of : Pointer CStmt → Option ℕ
context_of none = none
context_of (some none) = none
context_of (some (some st)) = st.context

-- The last `n` contexts after the first `start`, the newest first.
abbrev pub contexts_from : ℕ → ℕ → List ℕ
contexts_from start zero = []
contexts_from start (suc n) = (n + start) ∷ contexts_from start n

-- Of the contexts from `start` on, all are cancelled, each once and in the order in which they were
-- made, but for the newest one if it is `c`.
record Tracks (start : ℕ) (base : List ℕ) (w : World) (c : Option ℕ) : Type 0 where
  made : ℕ
  count : w.contexts ≡ made + start
  covered : also c w.cancelled ≡ contexts_from start made ++ base

module _ (start : ℕ) (base : List ℕ) where
  abbrev Keeps : Reply CStmt → Type 0
  Keeps r = Tracks start base r.world (context_of r.struct)

  new_context-Tracks :
      (w : World) (c : Option ℕ)
      → Tracks start base w c
      → Tracks start base (new_context w c).0 (some (new_context w c).1)
  unfolding new_context cancel_context
  new_context-Tracks w c t = record {
    made = suc t.made;
    count = omega (arith, t.count);
    covered = ap (λ k. k ∷ also c w.cancelled) t.count ∙ ap (◌∷◌ (t.made + start)) t.covered;
  }

  cancel_context-Tracks :
      (w : World) (c : Option ℕ)
      → Tracks start base w c
      → Tracks start base (cancel_context w c) none
  unfolding cancel_context
  cancel_context-Tracks w c t = record { made = t.made; count = t.count; covered = t.covered }

  -- Another world with the same contexts.
  same-Tracks :
      {w v : World} {c : Option ℕ}
      → v.contexts ≡ w.contexts
      → v.cancelled ≡ w.cancelled
      → Tracks start base w c
      → Tracks start base v c
  same-Tracks {c = c} a b t = record {
    made = t.made;
    count = a ∙ t.count;
    covered = ap (also c) b ∙ t.covered;
  }

  module _ (env : Env) (w : World) (e : Option AdbcError) where
    by_stmt-Keeps :
        (p : Pointer CStmt) (fname : Text) (st : CStmt) (o : Option (Statement × ℕ))
        (body : CStmt × Statement × ℕ → Reply CStmt)
        → Tracks start base w (context_of p)
        → ((s : Statement) (a : ℕ) → Keeps (body (st, s, a)))
        → Keeps (checked p w (stmt_of env e fname st o) body)
    unfolding checked
    by_stmt-Keeps p fname st none body t f = t
    by_stmt-Keeps p fname st (some (s, a)) body t f = f s a

    -- The check, by the flag of the driver.
    by_flag-Keeps :
        (poisoned : Bool) (p : Pointer CStmt) (fname : Text)
        (body : CStmt × Statement × ℕ → Reply CStmt)
        → Tracks start base w (context_of p)
        → ((st : CStmt) (s : Statement) (a : ℕ)
            → Tracks start base w st.context
            → Keeps (body (st, s, a)))
        → let found : Result (Option AdbcError) CStmt =
            if poisoned
            then refusal env e panicked_format fname
            else allocated env e (codes "%s: statement not allocated") fname p in
          Keeps (
            checked p w
              (elim found [ err e' ↦ err e' | ok st ↦ stmt_of env e fname st st.stmt ])
              body)
    unfolding checked
    by_flag-Keeps true p fname body t f = t
    by_flag-Keeps false none fname body t f = t
    by_flag-Keeps false (some none) fname body t f = t
    by_flag-Keeps false (some (some st)) fname body t f =
        by_stmt-Keeps (some (some st)) fname st st.stmt body t (λ s a. f st s a t)

    checked-Keeps :
        (p : Pointer CStmt) (fname : Text) (body : CStmt × Statement × ℕ → Reply CStmt)
        → Tracks start base w (context_of p)
        → ((st : CStmt) (s : Statement) (a : ℕ)
            → Tracks start base w st.context
            → Keeps (body (st, s, a)))
        → Keeps (checked p w (check_stmt_init env w e p fname) body)
    unfolding check_stmt_init check_stmt_alloc
    checked-Keeps p fname body t f = by_flag-Keeps w.poisoned p fname body t f

    statement_call-Keeps :
        (p : Pointer CStmt) (fname : Text) (m : Statement → Statement × Option GoError)
        → Tracks start base w (context_of p)
        → Keeps (statement_call env w e p fname m)
    unfolding answer_error
    statement_call-Keeps p fname m t = checked-Keeps p fname _ t (λ st s a u. u)

    statement_context_call-Keeps :
        (p : Pointer CStmt) (fname : Text) (m : Statement → Statement × Option GoError)
        → Tracks start base w (context_of p)
        → Keeps (statement_context_call env w e p fname m)
    unfolding answer_error
    statement_context_call-Keeps p fname m t =
        checked-Keeps p fname _ t (λ st s a u. new_context-Tracks w st.context u)

    unsupported_method-Keeps :
        (p : Pointer CStmt) (fname why : Text)
        → Tracks start base w (context_of p)
        → Keeps (unsupported_method env w e p fname why)
    unfolding complain
    unsupported_method-Keeps p fname why t = checked-Keeps p fname _ t (λ st s a u. t)
