-- ===== src/Quotes/Pricing.antt =====
-- app/services/quotes.py: `build_route` and `price_leg`.
use Prim.Native.String.{◌++◌ as ◌<>◌}
use umba_fx_engine.Prelude.{
  ℕ, String, Bool, true, false, not, ◌&&◌, ◌||◌, Option, none, some, List, [], ◌∷◌, if◌then◌else◌,
}
use umba_fx_engine.Prelude.Int.{ℤ, pos}
use umba_fx_engine.Money.{Currency, usd, eur, value, same, of_rate, round_rate}
use umba_fx_engine.Money.Arithmetic.{Decimal, add, sub, mul, div}
use umba_fx_engine.Errors.{api, service_unavailable, validation_error, invalid_operation}
use umba_fx_engine.Schema.{CurrentRate, SpreadSide, buy, sell}
use umba_fx_engine.Repositories.Rates.{CurrentRateBook}
use umba_fx_engine.Session.{Action, ◌>>=◌, pure, raise, or_raise}

abbrev pub error_rates_stale : String
error_rates_stale = "rates_stale"

pub record LegPricing : Type 0 where
  pub source : Currency
  pub destination : Currency
  pub mid_rate : Decimal
  pub executable_rate : ℤ
  pub spread_bps : ℤ
  pub spread_side : SpreadSide
  pub rate_snapshot_id : ℕ

abbrev or_else : {A : Type 0} → Option A → Option A → Option A
or_else (some a) rest = some a
or_else none rest = rest

unfoldable pub find_current_rate : CurrentRateBook → Currency → Currency → Option CurrentRate
find_current_rate book source destination =
    or_else (book.rates source destination) (book.rates destination source)

abbrev pub is_some : {A : Type 0} → Option A → Bool
is_some none = false
is_some (some a) = true

-- The test of one round of the loop over the pivots.
unfoldable pub pivot_works : CurrentRateBook → Currency → Currency → Currency → Bool
unfolding find_current_rate
pivot_works book source destination pivot =
    not (same pivot source || same pivot destination)
    && is_some (find_current_rate book source pivot)
    && is_some (find_current_rate book pivot destination)

-- The loop over the pivots left; the last line raises.
unfoldable pub route_by :
    CurrentRateBook → Currency → Currency → List Currency → Action (List Currency)
unfolding pivot_works
route_by book source destination [] = raise (
    api (
      service_unavailable error_rates_stale
        ("No route available for " <> value source <> "/" <> value destination <> ".")))
route_by book source destination (pivot ∷ pivots) =
    if pivot_works book source destination pivot
    then pure (source ∷ pivot ∷ destination ∷ [])
    else route_by book source destination pivots

unfoldable pub build_route : CurrentRateBook → Currency → Currency → Action (List Currency)
unfolding find_current_rate route_by
build_route book source destination =
    if is_some (find_current_rate book source destination)
    then pure (source ∷ destination ∷ [])
    else route_by book source destination (usd ∷ eur ∷ [])

abbrev pub one : Decimal
one = record { num = pos 1; scale = 0 }

-- `Decimal(spread) / BASIS_POINT_DENOMINATOR`
unfoldable pub spread_fraction : ℤ → Action Decimal
unfolding div
spread_fraction spread_bps =
    or_raise invalid_operation
      (div (record { num = spread_bps; scale = 0 }) (record { num = pos 10_000; scale = 0 }))

unfoldable pub sell_leg : CurrentRate → Currency → Currency → Action LegPricing
unfolding spread_fraction
sell_leg rate source destination = do
  let mid = of_rate rate.mid_rate
  fraction ← spread_fraction rate.sell_spread_bps
  executable ← or_raise invalid_operation (round_rate (mul mid (sub one fraction)))
  pure (record {
    source = source;
    destination = destination;
    mid_rate = mid;
    executable_rate = executable;
    spread_bps = rate.sell_spread_bps;
    spread_side = sell;
    rate_snapshot_id = rate.rate_snapshot_id;
  })

unfoldable pub buy_leg : CurrentRate → Currency → Currency → Action LegPricing
unfolding spread_fraction
buy_leg rate source destination = do
  let mid = of_rate rate.mid_rate
  fraction ← spread_fraction rate.buy_spread_bps
  quotient ← or_raise invalid_operation (div one (mul mid (add one fraction)))
  executable ← or_raise invalid_operation (round_rate quotient)
  pure (record {
    source = source;
    destination = destination;
    mid_rate = mid;
    executable_rate = executable;
    spread_bps = rate.buy_spread_bps;
    spread_side = buy;
    rate_snapshot_id = rate.rate_snapshot_id;
  })

unfoldable pub price_leg : CurrentRate → Currency → Currency → Action LegPricing
unfolding sell_leg buy_leg
price_leg rate source destination =
    if same source rate.base_currency && same destination rate.quote_currency
    then sell_leg rate source destination
    else if same source rate.quote_currency && same destination rate.base_currency
    then buy_leg rate source destination
    else raise (api (validation_error "Rate direction does not match requested leg." none))

-- The body of the loop over `zip(route, route[1:])`.
unfoldable pub price_hop : CurrentRateBook → Currency → Currency → Action LegPricing
unfolding find_current_rate price_leg
price_hop book source destination = do
  rate ←
      or_raise
        (api (
          service_unavailable error_rates_stale
            ("Rate missing for " <> value source <> "/" <> value destination <> ".")))
        (find_current_rate book source destination)
  price_leg rate source destination

unfoldable pub price_from : CurrentRateBook → Currency → List Currency → Action (List LegPricing)
unfolding price_hop
price_from book source [] = pure []
price_from book source (next ∷ rest) = do
  leg ← price_hop book source next
  legs ← price_from book next rest
  pure (leg ∷ legs)

unfoldable pub price_route : CurrentRateBook → List Currency → Action (List LegPricing)
unfolding price_from
price_route book [] = pure []
price_route book (source ∷ rest) = price_from book source rest

compound_from : Decimal → List LegPricing → Decimal
unfolding mul
compound_from acc [] = acc
compound_from acc (leg ∷ legs) = compound_from (mul acc (of_rate leg.executable_rate)) legs

-- The product of the legs' rates, before it is rounded.
unfoldable pub compound : List LegPricing → Decimal
unfolding compound_from
compound legs = compound_from one legs
