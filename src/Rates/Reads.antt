-- ===== src/Rates/Reads.antt =====
-- Reading the provider's answer changes no table.
use umba_fx_engine.Prelude.{String, Bool, true, false, Option, none, some, List, [], ◌∷◌}
use umba_fx_engine.Money.{Currency}
use umba_fx_engine.Errors.{key_error, invalid_operation}
use umba_fx_engine.Session.{Action, or_raise}
use umba_fx_engine.Session.Reads.{
  KeepsTables, reads_rules, KeepsTables-bind, KeepsTables-pure, KeepsTables-raise, KeepsTables-if,
  KeepsTables-or_raise,
}
use umba_fx_engine.Rates.{rate_rows, round_value}
use umba_fx_engine.Rates.Provider.{
  Reply, RatesField, object, no_items, rate_items, Document, RateValue, ProviderRates, Timestamp,
  absent, at, malformed, beyond_range, timeout, unreachable, response, not_json, no_object,
  document, fetch, pair_mid_rate, sanitize, scan_rates, scan_item, is_nan, is_nonpositive,
  parse_currency, provider_time,
}

pub KeepsTables-rate_rows :
    (rates : ProviderRates) (pairs : List (Currency × Currency))
    → KeepsTables (rate_rows rates pairs)
unfolding rate_rows
KeepsTables-rate_rows rates [] = KeepsTables-pure []
KeepsTables-rate_rows rates ((base, quote) ∷ pairs) =
    KeepsTables-bind (or_raise key_error (pair_mid_rate rates quote)) _ (KeepsTables-or_raise _ _)
      λ mid.
        KeepsTables-bind (or_raise invalid_operation (round_value mid)) _ (KeepsTables-or_raise _ _)
          λ rounded.
            KeepsTables-bind (rate_rows rates pairs) _ (KeepsTables-rate_rows rates pairs)
              λ rest. KeepsTables-pure _

KeepsTables-provider_time : (t : Timestamp) → KeepsTables (provider_time t)
unfolding provider_time
KeepsTables-provider_time absent = KeepsTables-pure none
KeepsTables-provider_time (at time) = KeepsTables-pure (some time)
KeepsTables-provider_time malformed = KeepsTables-raise _
KeepsTables-provider_time beyond_range = KeepsTables-raise _

KeepsTables-rate_items : (field : RatesField) → KeepsTables (rate_items field)
unfolding rate_items
KeepsTables-rate_items (object items) = KeepsTables-pure items
KeepsTables-rate_items no_items = KeepsTables-raise _

KeepsTables-scan_item :
    (rates : Currency → Option RateValue) (k : Option Currency) (rest : Action Bool)
    → KeepsTables rest
    → KeepsTables (scan_item rates k rest)
unfolding scan_item
KeepsTables-scan_item rates none rest kept = kept
KeepsTables-scan_item rates (some k) rest kept =
    KeepsTables-if (is_nan (rates k)) _ _ (KeepsTables-raise _)
      (KeepsTables-if (is_nonpositive (rates k)) _ _ (KeepsTables-pure true) kept)

KeepsTables-scan_rates :
    (items : List (String × RateValue)) (rates : Currency → Option RateValue)
    → KeepsTables (scan_rates items rates)
unfolding scan_rates
KeepsTables-scan_rates [] rates = KeepsTables-pure false
KeepsTables-scan_rates ((code, v) ∷ rest) rates =
    KeepsTables-scan_item rates (parse_currency code) (scan_rates rest rates)
      (KeepsTables-scan_rates rest rates)

KeepsTables-sanitize : (d : Document) → KeepsTables (sanitize d)
unfolding sanitize
KeepsTables-sanitize d =
    search (reads_rules, KeepsTables-rate_items, KeepsTables-provider_time, KeepsTables-scan_rates)
      depth 30

pub KeepsTables-fetch : (reply : Reply) → KeepsTables (fetch reply)
unfolding fetch
KeepsTables-fetch timeout = KeepsTables-raise _
KeepsTables-fetch unreachable = KeepsTables-raise _
KeepsTables-fetch (response status not_json) = KeepsTables-raise _
KeepsTables-fetch (response status no_object) = search reads_rules
KeepsTables-fetch (response status (document d)) = search (reads_rules, KeepsTables-sanitize)
