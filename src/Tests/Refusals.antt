-- ===== src/Tests/Refusals.antt =====
-- Runs of `execute_quote` that are refused, and one that nothing stands against.
use umba_fx_engine.Prelude.{refl, arith, [], ◌∷◌}
use umba_fx_engine.Schema.{Tables}
use umba_fx_engine.Errors.{api, conflict}
use umba_fx_engine.Observability.{quote_expired}
use umba_fx_engine.Session.Backend.{plain_engine, plain_engine-IsTransactional}
use umba_fx_engine.Executions.Rejections.{error_quote_expired, error_quote_already_executed}
use umba_fx_engine.Executions.Refusals.{IsRefused, execute_quote_expired, execute_quote_executed}
use umba_fx_engine.Prelude.{◌≡◌, false, none}
use umba_fx_engine.Prelude.Int.{◌+ℤ◌}
use umba_fx_engine.Schema.{Payload}
use umba_fx_engine.Session.{World, returned}
use umba_fx_engine.Observability.{insufficient_funds}
use umba_fx_engine.Executions.{execute_quote}
use umba_fx_engine.Executions.Rejections.{error_insufficient_funds}
use umba_fx_engine.Executions.Funds.{execute_quote_insufficient}
use umba_fx_engine.Executions.Success.{IsExecutable, execute_quote_succeeds}
use umba_fx_engine.Tests.Worlds.{
  small_request, small_tables, small_world, dollar_quote, world_at, zero_metrics,
}

execute_quote_expired_example :
    IsRefused plain_engine-IsTransactional
      (api (conflict error_quote_expired "Quote has expired."))
      small_request
      (world_at 60_000_000 small_tables)
      (quote_expired zero_metrics)
execute_quote_expired_example =
    execute_quote_expired plain_engine-IsTransactional small_request
      (world_at 60_000_000 small_tables) (record { nonempty = refl; fits = refl; fresh = refl })
      refl refl (omega arith)

-- The quote has an execution, of another key.
abbrev executed_tables : Tables
executed_tables = record small_tables {
  executions = record { id = 90; quote_id = 7; customer_id = 1 } ∷ [];
}

execute_quote_executed_example :
    IsRefused plain_engine-IsTransactional
      (api (conflict error_quote_already_executed "Quote has already been executed."))
      small_request
      (world_at 1_000 executed_tables)
      zero_metrics
execute_quote_executed_example =
    execute_quote_executed plain_engine-IsTransactional small_request
      (world_at 1_000 executed_tables) (record { nonempty = refl; fits = refl; fresh = refl }) refl
      refl

-- Without the dollars.
abbrev poor_tables : Tables
poor_tables = record small_tables { balances = λ c k. none }

execute_quote_insufficient_example :
    IsRefused plain_engine-IsTransactional
      (api (conflict error_insufficient_funds "Insufficient source balance."))
      small_request
      (world_at 1_000 poor_tables)
      (insufficient_funds zero_metrics)
execute_quote_insufficient_example =
    execute_quote_insufficient plain_engine-IsTransactional small_request
      (world_at 1_000 poor_tables) (record { nonempty = refl; fits = refl; fresh = refl }) refl refl
      (omega arith) (omega arith)

small-IsExecutable : IsExecutable small_request small_world dollar_quote
unfolding ◌+ℤ◌
small-IsExecutable = record {
  first = record { nonempty = refl; fits = refl; fresh = refl };
  found = refl;
  unexecuted = refl;
  in_time = omega arith;
  fresh = (omega arith, tt);
  payable = record {
    source_pos = omega arith;
    source_fits = refl;
    destination_pos = omega arith;
    destination_fits = refl;
    covered = omega arith;
    balance_fits = refl;
    held_fits = refl;
    balance_nonneg = omega arith;
    room = refl;
    distinct = refl;
  };
}

execute_quote_succeeds_example :
    (p : Payload) × (v : World) × (execute_quote plain_engine small_request small_world
      ≡ (returned (p, false), v))
execute_quote_succeeds_example =
    execute_quote_succeeds plain_engine small_request small_world refl small-IsExecutable
