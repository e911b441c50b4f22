-- ===== src/Quotes.antt =====
-- app/services/quotes.py: the route of a quote, the price of each leg, and the stored terms.
pub mod Pricing
pub mod Routes
pub mod Legs
pub mod Created
pub mod Fractions
pub mod Spreads
pub mod Readiness
pub mod Atomic
use Prim.Native.String.{◌++◌ as ◌<>◌}
use umba_fx_engine.Prelude.{
  ℕ, suc, ◌+◌, ◌*◌, String, Bool, not, ◌||◌, Option, none, some, List, [], ◌∷◌, ◌++◌, ltb,
}
use umba_fx_engine.Prelude.Int.{ℤ, pos, ◌+ℤ◌}
use umba_fx_engine.Money.{Currency, value, same, of_cents, of_rate, round_money, round_rate}
use umba_fx_engine.Money.Arithmetic.{Decimal, mul}
use umba_fx_engine.Errors.{
  Exception, api, service_unavailable, validation_error, data_error, invalid_operation,
}
use umba_fx_engine.Schema.{Quote, QuoteLeg}
use umba_fx_engine.Schema.Columns.{numeric_fits}
use umba_fx_engine.Settings.{Settings, second}
use umba_fx_engine.Observability.{quote_created}
use umba_fx_engine.Repositories.Rates.{CurrentRateBook, load_current_rate_book}
use umba_fx_engine.Session.{
  Action, ◌>>=◌, ◌>>◌, pure, raise, or_raise, write, raise_if, now, uuid4, count, log_event, info,
  uuid, string, currency, money, rate, commit,
}
use umba_fx_engine.Session.Backend.{Engine}
use umba_fx_engine.Customers.{assert_customer_exists}
use umba_fx_engine.Executions.Rejections.{text_or_null}
use Pricing.{LegPricing, build_route, price_route, compound, error_rates_stale}

abbrev pub quote_ttl_seconds : ℕ
quote_ttl_seconds = 60

-- What a request asks for.
pub record QuoteRequest : Type 0 where
  pub customer_id : ℕ
  pub source_currency : Currency
  pub destination_currency : Currency
  pub source_amount : Decimal
  pub request_id : Option String

-- A missing or an old book is refused; `now - freshness` is compared without a negative time.
unfoldable pub check_freshness : Settings → Option ℕ → Action (Unit {0})
check_freshness settings none =
    raise (api (service_unavailable error_rates_stale "Rates are unavailable."))
check_freshness settings (some last) = do
  time ← now
  raise_if (ltb (last + settings.rate_freshness_seconds * second) time)
      (api (service_unavailable error_rates_stale "Rates are stale."))

pub sum_spreads : List LegPricing → ℤ
sum_spreads [] = pos 0
sum_spreads (leg ∷ legs) = leg.spread_bps +ℤ sum_spreads legs

-- The row of `quotes`.
unfoldable pub insert_quote : Quote → Action (Unit {0})
insert_quote quote = do
  raise_if
      (not (numeric_fits quote.source_amount)
        || not (numeric_fits quote.destination_amount)
        || not (numeric_fits quote.executable_rate))
      data_error
  write (λ t. record t { quotes = quote ∷ t.quotes })

-- The rows of `quote_legs` from `position` on, with the mid rate rounded for its column.
unfoldable pub leg_rows : ℕ → ℕ → List LegPricing → Action (List QuoteLeg)
unfolding round_rate
leg_rows quote_id position [] = pure []
leg_rows quote_id position (leg ∷ legs) = do
  mid ← or_raise invalid_operation (round_rate leg.mid_rate)
  raise_if (not (numeric_fits mid) || not (numeric_fits leg.executable_rate)) data_error
  rest ← leg_rows quote_id (suc position) legs
  let row : QuoteLeg = record {
    quote_id = quote_id;
    position = position;
    source_currency = leg.source;
    destination_currency = leg.destination;
    mid_rate = mid;
    executable_rate = leg.executable_rate;
    spread_side = leg.spread_side;
    spread_bps = leg.spread_bps;
    rate_snapshot_id = leg.rate_snapshot_id;
  }
  pure (row ∷ rest)

unfoldable pub log_created : QuoteRequest → Quote → Action (Unit {0})
log_created q quote = log_event "quote.created" info (
    ("request_id", text_or_null q.request_id)
    ∷ ("customer_id", uuid q.customer_id)
    ∷ ("quote_id", uuid quote.id)
    ∷ ("source_currency", currency q.source_currency)
    ∷ ("destination_currency", currency q.destination_currency)
    ∷ ("source_amount", money quote.source_amount)
    ∷ ("destination_amount", money quote.destination_amount)
    ∷ ("executable_rate", rate quote.executable_rate)
    ∷ ("outcome", string "success")
    ∷ [])

-- The terms: the compounded rate, the rounded source amount, and its product with the rate, rounded
-- once in the destination currency.
unfoldable pub quote_terms : QuoteRequest → List Currency → List LegPricing → Action Quote
unfolding sum_spreads round_money round_rate
quote_terms q route legs = do
  executable_rate ← or_raise invalid_operation (round_rate (compound legs))
  source_amount ← or_raise invalid_operation (round_money q.source_amount q.source_currency)
  destination_amount ←
      or_raise invalid_operation (
        round_money (mul (of_cents source_amount) (of_rate executable_rate)) q.destination_currency)
  created_at ← now
  id ← uuid4
  pure (record {
    id = id;
    customer_id = q.customer_id;
    source_currency = q.source_currency;
    destination_currency = q.destination_currency;
    source_amount = source_amount;
    destination_amount = destination_amount;
    executable_rate = executable_rate;
    route = route;
    spread_bps = sum_spreads legs;
    created_at = created_at;
    expires_at = created_at + quote_ttl_seconds * second;
  })

unfoldable pub create_quote : Engine → Settings → QuoteRequest → Action Quote
create_quote e settings q = do
  raise_if (same q.source_currency q.destination_currency)
      (api (validation_error "source_currency and destination_currency must differ." none))
  assert_customer_exists e q.customer_id
  book ← load_current_rate_book
  check_freshness settings book.last_updated_at
  route ← build_route book q.source_currency q.destination_currency
  legs ← price_route book route
  quote ← quote_terms q route legs
  insert_quote quote
  rows ← leg_rows quote.id 0 legs
  write (λ t. record t { legs = rows ++ t.legs })
  commit e
  count quote_created
  log_created q quote
  pure quote
