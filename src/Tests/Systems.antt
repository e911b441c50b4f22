-- ===== src/Tests/Systems.antt =====
-- Requests served one after the other.
use umba_fx_engine.Prelude.{◌≡◌, refl}
use umba_fx_engine.Settings.{default_settings}
use umba_fx_engine.Session.{World, returned}
use umba_fx_engine.Session.Backend.{plain_engine, plain_engine-IsTransactional}
use umba_fx_engine.Executions.{execute_quote}
use umba_fx_engine.Executions.Checks.{check_unexecuted, check_expiry, lock_balances, check_funds}
use umba_fx_engine.Executions.Movement.{move_money, final_balances}
use umba_fx_engine.Money.{round_money}
use umba_fx_engine.Money.Arithmetic.{add, sub}
use umba_fx_engine.Api.Routes.{execute_quote_endpoint}
use umba_fx_engine.System.Requests.{Operation, post_customers, post_executions, executed, serve}
use umba_fx_engine.System.Effects.{Effect, serve-Effect}
use umba_fx_engine.System.Sound.{IsSound}
use umba_fx_engine.System.History.{Extends}
use umba_fx_engine.System.Runs.{Reach, here, then, Reach-IsSound, Reach-Extends}
use umba_fx_engine.System.Retries.{retry_after-Reach}
use umba_fx_engine.Tests.Worlds.{
  small_world, small_tables, small_tables-IsSound, dollars-InRange, world_at,
}
use umba_fx_engine.Tests.Transfers.{small_payload}

abbrev execution : Operation
execution = post_executions "request-1" "key-1" 7

abbrev after_execution : World
after_execution = (serve plain_engine default_settings execution small_world).1

serve-Effect_example :
    Effect plain_engine default_settings execution
      (serve plain_engine default_settings execution small_world).0
      small_tables
      after_execution.db.committed
serve-Effect_example =
    serve-Effect plain_engine-IsTransactional default_settings execution small_world dollars-InRange

executed_run :
    (serve plain_engine default_settings execution small_world).0
    ≡ returned (executed small_payload)
unfolding serve execute_quote check_unexecuted check_expiry lock_balances check_funds move_money
    round_money sub add final_balances execute_quote_endpoint
executed_run = refl

-- A second later, a new customer.
abbrev next_world : World
next_world = world_at 1_001_000 after_execution.db.committed

abbrev after_customer : World
after_customer = (serve plain_engine default_settings post_customers next_world).1

one_customer :
    Reach plain_engine default_settings after_execution.db.committed after_customer.db.committed
one_customer = then here post_customers next_world refl refl

both : Reach plain_engine default_settings small_tables after_customer.db.committed
both = then (then here execution small_world refl refl) post_customers next_world refl refl

Reach-IsSound_example : IsSound after_customer.db.committed
Reach-IsSound_example =
    Reach-IsSound plain_engine-IsTransactional default_settings both small_tables-IsSound

Reach-Extends_example : Extends small_tables after_customer.db.committed
Reach-Extends_example =
    Reach-Extends plain_engine-IsTransactional default_settings both small_tables-IsSound

-- The retry comes after the new customer.
abbrev later_world : World
later_world = world_at 2_000_000 after_customer.db.committed

retry_after-Reach_example :
    let (r, v) =
      serve plain_engine default_settings (post_executions "request-2" "key-1" 7) later_world in
    (r ≡ returned (executed small_payload)) × (v.db.committed ≡ after_customer.db.committed)
retry_after-Reach_example =
    retry_after-Reach plain_engine-IsTransactional default_settings "request-1" "request-2" "key-1"
      7 small_world later_world small_tables-IsSound executed_run one_customer
