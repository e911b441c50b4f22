-- ===== src/Tests/Credits.antt =====
-- A run of `credit_balance`, and a sum of the ledger.
use umba_fx_engine.Prelude.{◌≡◌, refl, arith}
use umba_fx_engine.Prelude.Int.{pos, ◌+ℤ◌}
use umba_fx_engine.Money.{usd, round_money}
use umba_fx_engine.Money.Arithmetic.{Decimal, add}
use umba_fx_engine.Session.{World, returned}
use umba_fx_engine.Session.Backend.{plain_engine, plain_engine-IsTransactional}
use umba_fx_engine.Customers.{credit_balance, assert_customer_exists, insert_adjustment}
use umba_fx_engine.Customers.Laws.{Credit, credit_balance-Credit}
use umba_fx_engine.Repositories.Ledger.{compute_balance, append_entry, sum_entries}
use umba_fx_engine.Repositories.Balances.{ensure_balance, get_balance_for_update, store_balance}
use umba_fx_engine.Repositories.Ledger.Totals.{posted, compute_balance-posted}
use umba_fx_engine.Tests.Worlds.{small_world, small_tables, dollars-InRange}

-- 12.345, which the banker's rounding takes to 12.34.
abbrev paid_in : Decimal
paid_in = record { num = pos 12_345; scale = 3 }

abbrev after_credit : World
after_credit = (credit_balance plain_engine 1 usd paid_in small_world).1

credit_run :
    credit_balance plain_engine 1 usd paid_in small_world ≡ (returned (pos 26_234), after_credit)
unfolding append_entry ensure_balance get_balance_for_update store_balance credit_balance
    assert_customer_exists insert_adjustment round_money add
credit_run = refl

credit_balance-Credit_example :
    Credit 1 usd paid_in small_tables (pos 26_234) after_credit.db.committed
credit_balance-Credit_example =
    credit_balance-Credit plain_engine-IsTransactional 1 usd paid_in small_world credit_run
      dollars-InRange

compute_balance-posted_example :
    compute_balance 1 usd small_world ≡ (returned (posted small_tables.entries 1 usd), small_world)
unfolding sum_entries ◌+ℤ◌
compute_balance-posted_example =
    compute_balance-posted 1 usd small_world (ground arith) (ground arith)
