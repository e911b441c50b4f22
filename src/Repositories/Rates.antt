-- ===== src/Repositories/Rates.antt =====
-- app/repositories/rates.py: the audit rows of a refresh, the snapshots, and the current rates.
use umba_fx_engine.Prelude.{
  ℕ, String, not, ◌&&◌, Option, none, some, List, [], ◌∷◌, ltb, if◌then◌else◌,
}
use umba_fx_engine.Prelude.Int.{ℤ}
use umba_fx_engine.Money.{Currency, currencies, same}
use umba_fx_engine.Errors.{data_error}
use umba_fx_engine.Schema.{CurrentRate, RateSnapshot, RateRefresh, completed, failed}
use umba_fx_engine.Schema.Columns.{numeric_fits}
use umba_fx_engine.Session.{Action, ◌>>=◌, ◌>>◌, pure, gets, write, raise_if, uuid4}

pub record RateRow : Type 0 where
  pub base_currency : Currency
  pub quote_currency : Currency
  pub mid_rate : ℤ

abbrev pub RateTable : Type 0
RateTable = Currency → Currency → Option CurrentRate

pub record CurrentRateBook : Type 0 where
  pub rates : RateTable
  pub last_updated_at : Option ℕ

-- What one refresh has fetched, but for the rates.
pub record Fetched : Type 0 where
  pub provider : String
  pub provider_base_currency : Currency
  pub provider_timestamp : Option ℕ
  pub fetched_at : ℕ
  pub raw_payload_hash : String
  pub buy_spread_bps : ℤ
  pub sell_spread_bps : ℤ

abbrev pub current_rate : Fetched → ℕ → RateRow → CurrentRate
current_rate f snapshot_id row = record {
  base_currency = row.base_currency;
  quote_currency = row.quote_currency;
  mid_rate = row.mid_rate;
  buy_spread_bps = f.buy_spread_bps;
  sell_spread_bps = f.sell_spread_bps;
  rate_snapshot_id = snapshot_id;
  last_updated_at = f.fetched_at;
}

abbrev pub snapshot_row : Fetched → ℕ → ℕ → RateRow → RateSnapshot
snapshot_row f refresh_id id row = record {
  id = id;
  rate_refresh_id = refresh_id;
  base_currency = row.base_currency;
  quote_currency = row.quote_currency;
  mid_rate = row.mid_rate;
  provider = f.provider;
  provider_timestamp = f.provider_timestamp;
  fetched_at = f.fetched_at;
  raw_payload_hash = f.raw_payload_hash;
}

-- `INSERT … ON CONFLICT (base_currency, quote_currency) DO UPDATE`
abbrev pub upsert : CurrentRate → RateTable → RateTable
upsert rate table base quote =
    if same base rate.base_currency && same quote rate.quote_currency
    then some rate
    else table base quote

-- One round of the loop of `_store_pair_rows`.
unfoldable pub store_pair_row : Fetched → ℕ → RateRow → Action (Unit {0})
store_pair_row f refresh_id row = do
  id ← uuid4
  raise_if (not (numeric_fits row.mid_rate)) data_error
  write (λ t. record t {
    snapshots = snapshot_row f refresh_id id row ∷ t.snapshots;
    rates = upsert (current_rate f id row) t.rates;
  })

unfoldable pub store_pair_rows : Fetched → ℕ → List RateRow → Action (Unit {0})
unfolding store_pair_row
store_pair_rows f refresh_id [] = pure tt
store_pair_rows f refresh_id (row ∷ rows) =
    store_pair_row f refresh_id row >> store_pair_rows f refresh_id rows

unfoldable pub create_refresh_success : Fetched → ℕ → ℕ → List RateRow → Action RateRefresh
unfolding store_pair_rows
create_refresh_success f pairs_updated duration_ms rows = do
  id ← uuid4
  let refresh : RateRefresh = record {
    id = id;
    provider = f.provider;
    status = completed;
    provider_base_currency = some f.provider_base_currency;
    provider_timestamp = f.provider_timestamp;
    fetched_at = f.fetched_at;
    pairs_updated = pairs_updated;
    error_code = none;
    error_message = none;
    duration_ms = duration_ms;
  }
  write (λ t. record t { refreshes = refresh ∷ t.refreshes })
  store_pair_rows f id rows
  pure refresh

unfoldable pub create_refresh_failure : String → ℕ → String → String → ℕ → Action RateRefresh
create_refresh_failure provider fetched_at error_code error_message duration_ms = do
  id ← uuid4
  let refresh : RateRefresh = record {
    id = id;
    provider = provider;
    status = failed;
    provider_base_currency = none;
    provider_timestamp = none;
    fetched_at = fetched_at;
    pairs_updated = 0;
    error_code = some error_code;
    error_message = some error_message;
    duration_ms = duration_ms;
  }
  write (λ t. record t { refreshes = refresh ∷ t.refreshes })
  pure refresh

-- The later of two readings of `last_updated_at`.
abbrev pub later : Option ℕ → Option CurrentRate → Option ℕ
later best none = best
later none (some rate) = some rate.last_updated_at
later (some time) (some rate) =
    some (if ltb time rate.last_updated_at then rate.last_updated_at else time)

latest_of : RateTable → Currency → List Currency → Option ℕ → Option ℕ
latest_of table base [] best = best
latest_of table base (quote ∷ quotes) best =
    latest_of table base quotes (later best (table base quote))

latest_from : RateTable → List Currency → Option ℕ → Option ℕ
unfolding latest_of
latest_from table [] best = best
latest_from table (base ∷ bases) best =
    latest_from table bases (latest_of table base currencies best)

-- `max((row.last_updated_at for row in rows), default=None)`
unfoldable pub latest : RateTable → Option ℕ
unfolding latest_from
latest table = latest_from table currencies none

-- The time of the row that `get_latest_current_rate` returns: `ORDER BY last_updated_at DESC LIMIT 1`.
unfoldable pub get_latest_current_rate : Action (Option ℕ)
unfolding latest
get_latest_current_rate = gets (λ t. latest t.rates)

unfoldable pub load_current_rate_book : Action CurrentRateBook
load_current_rate_book = gets (λ t. record { rates = t.rates; last_updated_at = latest t.rates })
