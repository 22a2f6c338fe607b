-- ===== src/Spark/Statement/Binding.antt =====
-- Bound parameters: the batches that are retained, released and bound, and how many rows are bound.
use adbc_driver_spark.Base.{
  ◌≤◌, ◌≡◌, ◌∙◌, refl, sym, ap, false, Bool-cases, inl, inr, Option, none, some, List, [], ◌∷◌,
  ◌++◌, append-nil, arith,
}
use adbc_driver_spark.Base.Text.{Text}
use adbc_driver_spark.Connect.Reader.{to_list}
use adbc_driver_spark.Spark.Statement.{
  Params, Statement, fresh_statement, too_many_rows, close_statement, set_sql_query, prepare, bind,
}

-- The calls that change a statement.
pub data StatementCall : Type 0 where
  call_bind : Option Params → StatementCall
  call_query : Text → StatementCall
  call_prepare call_close : StatementCall

abbrev pub run_statement : Statement → StatementCall → Statement
run_statement s (call_bind p) = (bind s p).0
run_statement s (call_query q) = (set_sql_query s q).0
run_statement s call_prepare = (prepare s).0
run_statement s call_close = close_statement s

abbrev pub run_statements : Statement → List StatementCall → Statement
run_statements s [] = s
run_statements s (c ∷ cs) = run_statements (run_statement s c) cs

abbrev pub AtMostOneRow : Option Params → Type 0
AtMostOneRow none = Unit
AtMostOneRow (some p) = p.num_rows ≤ 1

-- The retained batches are those released, in the same order, and the one bound.
pub record IsBound (s : Statement) : Type 0 where
  pub balance : s.retained ≡ s.released ++ to_list s.params
  pub one_row : AtMostOneRow s.params

too_many_rows-AtMostOneRow :
    (values : Option Params) → too_many_rows values ≡ false → AtMostOneRow values
too_many_rows-AtMostOneRow none h = tt
too_many_rows-AtMostOneRow (some p) h = ground arith

bind-IsBound : (s : Statement) (values : Option Params) → IsBound s → IsBound (bind s values).0
unfolding bind
bind-IsBound s values h = elim (Bool-cases (too_many_rows values)) [
  | inl many ↦ rw many h
  | inr few ↦ rw few (record {
    balance = ap (λ l. l ++ to_list values) h.balance;
    one_row = too_many_rows-AtMostOneRow values few;
  })
]

run_statement-IsBound :
    (s : Statement) (c : StatementCall) → IsBound s → IsBound (run_statement s c)
unfolding set_sql_query prepare close_statement
run_statement-IsBound s (call_bind p) h = bind-IsBound s p h
run_statement-IsBound s (call_query q) h = record { balance = h.balance; one_row = h.one_row }
run_statement-IsBound s call_prepare h = ground (arith, h.balance, h.one_row)
run_statement-IsBound s call_close h = record {
  balance = h.balance ∙ sym (append-nil _);
  one_row = tt;
}

run_statements-keep :
    (cs : List StatementCall) (s : Statement) → IsBound s → IsBound (run_statements s cs)
run_statements-keep [] s h = h
run_statements-keep (c ∷ cs) s h =
    run_statements-keep cs (run_statement s c) (run_statement-IsBound s c h)

-- After any sequence of Bind, SetSqlQuery, Prepare and Close on a new statement, the list of the
-- batches retained is the list of those released, in the same order, followed by the one bound, if
-- there is one; and that has at most one row.
pub run_statements-IsBound : (cs : List StatementCall) → IsBound (run_statements fresh_statement cs)
run_statements-IsBound cs =
    run_statements-keep cs fresh_statement (record { balance = refl; one_row = tt })
