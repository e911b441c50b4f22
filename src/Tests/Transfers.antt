-- ===== src/Tests/Transfers.antt =====
-- Runs of `execute_quote`.
use umba_fx_engine.Prelude.{String, ◌≡◌, ◌≢◌, refl, true, false, none, [], ◌∷◌, eq_iff, arith}
use umba_fx_engine.Prelude.Int.{pos}
use umba_fx_engine.Money.{usd, kes}
use umba_fx_engine.Schema.{Payload}
use umba_fx_engine.Session.{World, returned, raised}
use umba_fx_engine.Session.Backend.{plain_engine, plain_engine-IsTransactional}
use umba_fx_engine.Errors.{api, conflict}
use umba_fx_engine.Executions.{execute_quote}
use umba_fx_engine.Executions.Correct.{execute_quote-Transfer}
use umba_fx_engine.Executions.Spec.{Transfer}
use umba_fx_engine.Executions.Replays.{IsReplay, execute_quote-IsReplay}
use umba_fx_engine.Executions.Atomic.{execute_quote-atomic}
use umba_fx_engine.Executions.Idempotency.{
  execute_quote_reuse, execute_quote_retry, Transfer-is_executed, execute_quote_once,
}
use umba_fx_engine.Executions.Rejections.{Request, error_quote_expired, error_idempotency_conflict}
use umba_fx_engine.Executions.Checks.{
  set_key, check_unexecuted, check_expiry, lock_balances, check_funds,
}
use umba_fx_engine.Executions.Movement.{move_money, final_balances}
use umba_fx_engine.Money.{round_money}
use umba_fx_engine.Money.Arithmetic.{add, sub}
use umba_fx_engine.Observability.{idempotency_replay, idempotency_conflict}
use umba_fx_engine.Tests.Worlds.{
  small_world, small_request, small_tables, dollars-InRange, world_at,
}

abbrev pub small_payload : Payload
small_payload = record {
  execution_id = 100;
  quote_id = 7;
  debit_leg = record { currency = usd; amount = pos 10_000 };
  credit_leg = record { currency = kes; amount = pos 1_287_000 };
  balances = (usd, pos 15_000) ∷ (kes, pos 1_287_000) ∷ [];
}

abbrev after_run : World
after_run = (execute_quote plain_engine small_request small_world).1

run :
    execute_quote plain_engine small_request small_world
    ≡ (returned (small_payload, false), after_run)
unfolding execute_quote check_unexecuted check_expiry lock_balances check_funds move_money
    round_money sub add final_balances
run = refl

execute_quote-Transfer_example :
    Transfer small_request 1_000 small_tables small_payload after_run.db.committed
execute_quote-Transfer_example =
    execute_quote-Transfer plain_engine-IsTransactional small_request small_world run
      dollars-InRange

transferred : Transfer small_request 1_000 small_tables small_payload after_run.db.committed
transferred =
    execute_quote-Transfer plain_engine-IsTransactional small_request small_world run
      dollars-InRange

-- A minute and more after the quote was made.
abbrev late_world : World
late_world = world_at 60_000_000 small_tables

late_run :
    (execute_quote plain_engine small_request late_world).0
    ≡ raised (api (conflict error_quote_expired "Quote has expired."))
unfolding execute_quote check_unexecuted check_expiry
late_run = refl

execute_quote-atomic_example :
    (execute_quote plain_engine small_request late_world).1.db.committed ≡ small_tables
execute_quote-atomic_example =
    execute_quote-atomic plain_engine-IsTransactional small_request late_world late_run

-- A second later.
abbrev next_world : World
next_world = world_at 1_001_000 after_run.db.committed

abbrev pub other_request : Request
other_request = record small_request { idempotency_key = "key-2" }

execute_quote_once_example :
    execute_quote plain_engine other_request next_world
    ≢ (returned (small_payload, false), next_world)
execute_quote_once_example =
    execute_quote_once plain_engine-IsTransactional other_request next_world transferred.fits
      (Transfer-is_executed transferred).1

-- "key-1" stands for another request.
abbrev taken_world : World
taken_world = world_at 1_000 (
    set_key "key-1"
      (record {
        request_hash = "hash-0";
        response_payload = none;
        status_code = none;
        completed_at = none;
      })
      small_tables)

different : ◌≢◌ {A = String} "hash-0" "hash-1"
different h = ground (arith, eq_iff "hash-0" "hash-1")

execute_quote_reuse_example :
    let (r, v) = execute_quote plain_engine small_request taken_world in
    (r
      ≡ raised (
          api (
            conflict error_idempotency_conflict
              "Idempotency-Key was already used with a different request.")))
    × (v.db ≡ taken_world.db)
    × (v.metrics ≡ idempotency_conflict taken_world.metrics)
execute_quote_reuse_example =
    execute_quote_reuse plain_engine small_request taken_world refl refl different

replay_run : execute_quote plain_engine small_request next_world ≡ (
  returned (small_payload, true),
  record next_world { metrics = idempotency_replay next_world.metrics },
)
replay_run = execute_quote_retry plain_engine next_world refl transferred refl

execute_quote-IsReplay_example :
    IsReplay small_request next_world.db.work small_payload × (next_world.db ≡ next_world.db)
execute_quote-IsReplay_example =
    execute_quote-IsReplay plain_engine-IsTransactional small_request next_world replay_run
      transferred.fits
