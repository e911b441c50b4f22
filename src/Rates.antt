-- ===== src/Rates.antt =====
-- app/services/rates.py: one refresh of the rates, and their freshness.
pub mod Provider
pub mod Reads
pub mod Failure
pub mod Published
pub mod Stored
pub mod Refreshed
use umba_fx_engine.Prelude.{
  ℕ, ◌+◌, ◌-◌, ◌*◌, ◌/◌, String, Bool, Option, none, some, List, [], ◌∷◌, length, ltb,
  if◌then◌else◌,
}
use umba_fx_engine.Money.{Currency, usd, eur, kes, ngn, value, round_rate}
use umba_fx_engine.Errors.{
  ApiError, Exception, api, bad_gateway, service_unavailable, key_error, value_error,
  invalid_operation,
}
use umba_fx_engine.Schema.{RateRefresh, Tables}
use umba_fx_engine.Settings.{Settings, second}
use umba_fx_engine.Observability.{rate_refresh_success, rate_refresh_failure, stale_rates}
use umba_fx_engine.Repositories.Rates.{
  RateRow, Fetched, create_refresh_success, create_refresh_failure, get_latest_current_rate,
}
use umba_fx_engine.Session.{
  Action, Outcome, returned, raised, ◌>>=◌, ◌>>◌, pure, raise, or_raise, write, now, count,
  log_event, info, error, uuid, number, string, commit, rollback,
}
use umba_fx_engine.Session.Backend.{Engine}
use umba_fx_engine.Executions.Rejections.{handle, text_or_null}
use umba_fx_engine.Quotes.Pricing.{error_rates_stale}
use umba_fx_engine.Prelude.Int.{ℤ}
use Provider.{
  ProviderRates, RateValue, finite, Reply, fetch, pair_mid_rate, error_upstream_bad_response,
}

-- `CANONICAL_PAIRS`
abbrev pub canonical_pairs : List (Currency × Currency)
canonical_pairs = (usd, kes) ∷ (usd, ngn) ∷ (usd, eur) ∷ []

-- `RateRefresh.duration_ms` once more, after the row was inserted.
abbrev pub set_duration : ℕ → List RateRefresh → List RateRefresh
set_duration ms [] = []
set_duration ms (refresh ∷ older) = record refresh { duration_ms = ms } ∷ older

-- `_duration_ms`
unfoldable pub duration_ms : ℕ → Action ℕ
duration_ms started = do time ← now; pure ((time - started) / 1000)

-- `round_rate` of a rate that may not be finite.
unfoldable pub round_value : RateValue → Option ℤ
unfolding round_rate
round_value (finite d) = round_rate d
round_value _ = none

-- The rows of a refresh, or the exception of the first pair that has no usable rate.
unfoldable pub rate_rows : ProviderRates → List (Currency × Currency) → Action (List RateRow)
unfolding pair_mid_rate round_value
rate_rows rates [] = pure []
rate_rows rates ((base, quote) ∷ pairs) = do
  mid ← or_raise key_error (pair_mid_rate rates quote)
  rounded ← or_raise invalid_operation (round_value mid)
  rest ← rate_rows rates pairs
  pure (record { base_currency = base; quote_currency = quote; mid_rate = rounded } ∷ rest)

-- `_persist_successful_refresh`
unfoldable pub persist_successful_refresh : Settings → ProviderRates → ℕ → Action RateRefresh
unfolding rate_rows create_refresh_success
persist_successful_refresh settings rates started = do
  rows ← rate_rows rates canonical_pairs
  create_refresh_success
      (record {
        provider = rates.provider;
        provider_base_currency = rates.base_currency;
        provider_timestamp = rates.provider_timestamp;
        fetched_at = started;
        raw_payload_hash = rates.raw_payload_hash;
        buy_spread_bps = settings.default_buy_spread_bps;
        sell_spread_bps = settings.default_sell_spread_bps;
      })
      (length rows) 0 rows

-- `_record_successful_refresh`: the duration is flushed by the commit.
unfoldable pub record_successful_refresh :
    Engine → RateRefresh → String → ℕ → Option String → Action RateRefresh
unfolding duration_ms
record_successful_refresh e refresh provider started request_id = do
  ms ← duration_ms started
  write (λ t. record t { refreshes = set_duration ms t.refreshes })
  commit e
  count rate_refresh_success
  log_event "rate_refresh.completed" info (
      ("request_id", text_or_null request_id)
      ∷ ("rate_refresh_id", uuid refresh.id)
      ∷ ("provider", string provider)
      ∷ ("status", string "completed")
      ∷ ("pairs_updated", number refresh.pairs_updated)
      ∷ ("duration_ms", number ms)
      ∷ [])
  pure refresh

-- `_record_failed_refresh`
unfoldable pub record_failed_refresh : Engine → ℕ → ApiError → Option String → Action (Unit {0})
unfolding duration_ms create_refresh_failure
record_failed_refresh e started failure request_id = do
  rollback e
  refresh ← create_refresh_failure "fxapi.app" started failure.code failure.detail 0
  ms ← duration_ms started
  write (λ t. record t { refreshes = set_duration ms t.refreshes })
  commit e
  count rate_refresh_failure
  log_event "rate_refresh.failed" error (
      ("request_id", text_or_null request_id)
      ∷ ("rate_refresh_id", uuid refresh.id)
      ∷ ("provider", string refresh.provider)
      ∷ ("status", string "failed")
      ∷ ("pairs_updated", number 0)
      ∷ ("duration_ms", number ms)
      ∷ ("error_code", string failure.code)
      ∷ [])

-- What an unusable rate counts as.
unfoldable pub unusable : Engine → ℕ → Option String → Action RateRefresh
unfolding record_failed_refresh
unusable e started request_id =
    let failure =
      bad_gateway error_upstream_bad_response "Rate provider returned unusable rates." in
    record_failed_refresh e started failure request_id >> raise (api failure)

-- The two `except` clauses of `refresh_rates`; what they do not name goes through untouched.
unfoldable pub on_refresh_failure : Engine → ℕ → Option String → Exception → Action RateRefresh
unfolding record_failed_refresh unusable
on_refresh_failure e started request_id (api failure) =
    record_failed_refresh e started failure request_id >> raise (api failure)
on_refresh_failure e started request_id key_error = unusable e started request_id
on_refresh_failure e started request_id invalid_operation = unusable e started request_id
on_refresh_failure e started request_id value_error = unusable e started request_id
on_refresh_failure e started request_id x = raise x

-- The `try` block on the provider's answer.
unfoldable pub attempt_refresh : Engine → Settings → Reply → ℕ → Option String → Action RateRefresh
unfolding fetch persist_successful_refresh record_successful_refresh
attempt_refresh e settings reply started request_id = do
  rates ← fetch reply
  refresh ← persist_successful_refresh settings rates started
  record_successful_refresh e refresh rates.provider started request_id

-- The advisory lock lets one refresh run at a time. The result is the row whose id, status, time and
-- count of pairs the source returns.
unfoldable pub refresh_rates : Engine → Settings → Reply → Option String → Action RateRefresh
unfolding attempt_refresh on_refresh_failure
refresh_rates e settings reply request_id = do
  started ← now
  λ w.
      let (r, v) = attempt_refresh e settings reply started request_id w in
      handle (on_refresh_failure e started request_id) r v

-- "unavailable", "stale" and "fresh".
pub data Freshness : Type 0 where
  unavailable stale fresh : Freshness

-- `last_updated < now - freshness`
abbrev pub freshness_at : Settings → ℕ → ℕ → Freshness
freshness_at settings last time =
    if ltb (last + settings.rate_freshness_seconds * second) time then stale else fresh

unfoldable pub status_of : Settings → Option ℕ → Action Freshness
status_of settings none = pure unavailable
status_of settings (some last) = do time ← now; pure (freshness_at settings last time)

unfoldable pub rates_freshness_status : Settings → Action Freshness
unfolding status_of get_latest_current_rate
rates_freshness_status settings = do last ← get_latest_current_rate; status_of settings last

unfoldable pub refuse_stale : String → Action (Unit {0})
refuse_stale detail =
    count stale_rates >> raise (api (service_unavailable error_rates_stale detail))

-- `ensure_fresh_rates`
unfoldable pub ensure_fresh_rates : Settings → Action (Unit {0})
unfolding rates_freshness_status refuse_stale
ensure_fresh_rates settings = do
  status ← rates_freshness_status settings
  elim status [
    | fresh ↦ pure tt
    | unavailable ↦ refuse_stale "Rates are unavailable."
    | stale ↦ refuse_stale "Rates are stale."
  ]
