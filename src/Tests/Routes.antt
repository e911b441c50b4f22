-- ===== src/Tests/Routes.antt =====
-- A quote of dollars for shillings, and routes in a small book.
use umba_fx_engine.Prelude.{◌≡◌, refl, none, some, [], ◌∷◌}
use umba_fx_engine.Prelude.Int.{pos}
use umba_fx_engine.Money.{Currency, usd, eur, kes, ngn}
use umba_fx_engine.Schema.{Tables, Quote, CurrentRate}
use umba_fx_engine.Settings.{default_settings}
use umba_fx_engine.Session.{World, returned, raised}
use umba_fx_engine.Session.Backend.{plain_engine}
use umba_fx_engine.Repositories.Rates.{CurrentRateBook, RateTable, latest}
use umba_fx_engine.Quotes.{QuoteRequest, check_freshness, create_quote}
use umba_fx_engine.Quotes.Pricing.{price_leg, build_route, error_rates_stale}
use umba_fx_engine.Errors.{api, service_unavailable}
use umba_fx_engine.Quotes.Routes.{IsRoute, IsChosen, build_route-IsChosen, build_route_raises}
use umba_fx_engine.Quotes.Spreads.{IsSpreadOff, price_leg_sells}
use umba_fx_engine.Quotes.Readiness.{rates_freshness_status_iff}
use umba_fx_engine.Quotes.Pricing.{LegPricing}
use umba_fx_engine.Rates.{fresh, rates_freshness_status}
use umba_fx_engine.Schema.{sell}
use umba_fx_engine.Prelude.{ℕ, ◌↔◌, arith}
use umba_fx_engine.System.Sound.{IsSound}
use umba_fx_engine.Tests.Worlds.{small_tables-IsSound, small_tables, small_world, world_at}

abbrev dollar_rate : Currency → CurrentRate
dollar_rate k = record {
  base_currency = usd;
  quote_currency = k;
  mid_rate = pos 1_300_000_000_000;
  buy_spread_bps = pos 50;
  sell_spread_bps = pos 50;
  rate_snapshot_id = 5;
  last_updated_at = 500;
}

-- Dollars against shillings and against naira.
abbrev dollar_rates : RateTable
dollar_rates usd kes = some (dollar_rate kes)
dollar_rates usd ngn = some (dollar_rate ngn)
dollar_rates _ _ = none

abbrev book : CurrentRateBook
book = record { rates = dollar_rates; last_updated_at = some 500 }

over_dollars : build_route book kes ngn small_world ≡ (returned (kes ∷ usd ∷ ngn ∷ []), small_world)
unfolding build_route
over_dollars = refl

build_route-IsChosen_example :
    (small_world ≡ small_world) × IsChosen book kes ngn (kes ∷ usd ∷ ngn ∷ [])
build_route-IsChosen_example = build_route-IsChosen book kes ngn small_world over_dollars

no_euros :
    (build_route book usd eur small_world).0
    ≡ raised (api (service_unavailable error_rates_stale "No route available for USD/EUR."))
unfolding build_route
no_euros = refl

build_route_raises_example : ¬ IsRoute book usd eur (usd ∷ eur ∷ [])
build_route_raises_example = build_route_raises book usd eur small_world no_euros

abbrev rated_tables : Tables
rated_tables = record small_tables { rates = dollar_rates }

abbrev rated_world : World
rated_world = world_at 1_000 rated_tables

abbrev quote_request : QuoteRequest
quote_request = record {
  customer_id = 1;
  source_currency = usd;
  destination_currency = kes;
  source_amount = record { num = pos 100; scale = 0 };
  request_id = none;
}

abbrev made : Quote
made = record {
  id = 100;
  customer_id = 1;
  source_currency = usd;
  destination_currency = kes;
  source_amount = pos 10_000;
  destination_amount = pos 1_293_500;
  executable_rate = pos 1_293_500_000_000;
  route = usd ∷ kes ∷ [];
  spread_bps = pos 50;
  created_at = 1_000;
  expires_at = 60_001_000;
}

abbrev after_quote : World
after_quote = (create_quote plain_engine default_settings quote_request rated_world).1

rated_tables-IsSound : IsSound rated_tables
rated_tables-IsSound = record {
  reconciled = small_tables-IsSound.reconciled;
  in_range = small_tables-IsSound.in_range;
  nonneg = small_tables-IsSound.nonneg;
  amounts = small_tables-IsSound.amounts;
  once = small_tables-IsSound.once;
}

price_leg_sells_example :
    (p : LegPricing) × (r : ℕ) × (price_leg (dollar_rate kes) usd kes small_world
      ≡ (returned p, small_world))
    × (p.executable_rate ≡ pos r)
    × (p.spread_side ≡ sell)
    × IsSpreadOff 1_300_000_000_000 50 r
price_leg_sells_example =
    price_leg_sells (dollar_rate kes) small_world refl refl (omega arith) (omega arith)

rates_freshness_status_iff_example :
    ((rates_freshness_status default_settings rated_world).0 ≡ returned fresh)
    ↔ ((check_freshness default_settings (latest rated_tables.rates) rated_world).0 ≡ returned tt)
rates_freshness_status_iff_example = rates_freshness_status_iff default_settings rated_world
