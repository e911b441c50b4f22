-- ===== src/Tests/Customers.antt =====
-- A new customer, the balances of one, and refusals.
use umba_fx_engine.Prelude.{◌≡◌, refl, [], ◌∷◌, none}
use umba_fx_engine.Prelude.Int.{pos}
use umba_fx_engine.Money.{usd, eur, kes, ngn, round_money}
use umba_fx_engine.Settings.{default_settings}
use umba_fx_engine.Session.{returned, raised}
use umba_fx_engine.Errors.{api, value_error, validation_error}
use umba_fx_engine.Session.Backend.{plain_engine, plain_engine-IsTransactional}
use umba_fx_engine.Money.Arithmetic.{Decimal}
use umba_fx_engine.Quotes.{QuoteRequest, create_quote}
use umba_fx_engine.Customers.{
  create_customer, get_balances, credit_balance, assert_customer_exists, insert_adjustment,
}
use umba_fx_engine.Repositories.Ledger.{append_entry}
use umba_fx_engine.Repositories.Balances.{ensure_balance, get_balance_for_update}
use umba_fx_engine.Customers.Atomic.{credit_balance-atomic}
use umba_fx_engine.Customers.Created.{Joined, create_customer-Joined, get_balances-returns}
use umba_fx_engine.Tests.Worlds.{small_world, small_tables, dollars-InRange}

create_customer-Joined_example :
    let (r, v) = create_customer plain_engine small_world in
    (r ≡ returned 100) × Joined 100 small_tables v.db.committed
create_customer-Joined_example = create_customer-Joined plain_engine-IsTransactional small_world

get_balances-returns_example :
    let (r, v) = get_balances plain_engine 1 small_world in
    (r ≡ returned ((usd, pos 25_000) ∷ (eur, pos 0) ∷ (kes, pos 0) ∷ (ngn, pos 0) ∷ []))
    × (v.db.committed ≡ small_tables)
get_balances-returns_example = get_balances-returns plain_engine 1 small_world refl dollars-InRange

-- 0.001, which rounds to nothing and is refused by the ledger.
abbrev too_small : Decimal
too_small = record { num = pos 1; scale = 3 }

credit_refused : (credit_balance plain_engine 1 usd too_small small_world).0 ≡ raised value_error
unfolding credit_balance assert_customer_exists insert_adjustment append_entry ensure_balance
    get_balance_for_update round_money
credit_refused = refl

credit_balance-atomic_example :
    (credit_balance plain_engine 1 usd too_small small_world).1.db.committed ≡ small_tables
credit_balance-atomic_example =
    credit_balance-atomic plain_engine 1 usd too_small small_world credit_refused

abbrev to_self : QuoteRequest
to_self = record {
  customer_id = 1;
  source_currency = usd;
  destination_currency = usd;
  source_amount = too_small;
  request_id = none;
}

quote_refused :
    (create_quote plain_engine default_settings to_self small_world).0
    ≡ raised (api (validation_error "source_currency and destination_currency must differ." none))
unfolding create_quote
quote_refused = refl
