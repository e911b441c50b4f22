-- ===== src/Tests/Starts.antt =====
-- A first start of the application, on an empty database.
use umba_fx_engine.Prelude.{inl, ◌≡◌, refl, true, false, none, some, [], ◌∷◌, ◌++◌, arith}
use umba_fx_engine.Startup.{
  Table, of_customers, of_balances, of_rate_refreshes, of_rate_snapshots, of_current_rates,
  of_quotes, of_quote_legs, of_executions, of_credit_adjustments, of_ledger_entries,
  of_idempotency_keys, is_in, Catalog, Backend, create_all, refusal,
}
use umba_fx_engine.Startup.Statements.{documented, creations, IsDocumented}
use umba_fx_engine.Startup.Protected.{refusal_text, create_all_refuses}

-- A backend that does what is documented, with the tables after those that they refer to.
abbrev documented_backend : Backend
documented_backend = record {
  sorted_tables =
      of_customers ∷ of_rate_refreshes ∷ of_idempotency_keys ∷ of_balances ∷ of_rate_snapshots
      ∷ of_quotes ∷ of_ledger_entries ∷ of_credit_adjustments ∷ of_current_rates ∷ of_quote_legs
      ∷ of_executions ∷ [];
  emitted = λ ev ts. ev.before_create ++ creations ev ts ev.after_create;
  execute = documented;
}

listed_once : (t : Table) → is_in t documented_backend.sorted_tables ≡ true
listed_once t = ground arith

documented_backend-IsDocumented : IsDocumented documented_backend
documented_backend-IsDocumented = record {
  execute_lem = λ x c. refl;
  emitted_lem = λ ev ts. refl;
  complete = listed_once;
  once = ground arith;
}

abbrev empty : Catalog
empty = record { exists = λ t. false; functions = λ f. none; triggers = λ name t. none }

create_all_refuses_example :
    (after : Catalog) × (create_all documented_backend empty ≡ some after)
    × (after.exists of_executions ≡ true)
    × (refusal after of_executions ≡ some (refusal_text of_executions))
create_all_refuses_example =
    create_all_refuses documented_backend-IsDocumented empty (λ t h. refl) of_executions (inl refl)
