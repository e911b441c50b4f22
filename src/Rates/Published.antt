-- ===== src/Rates/Published.antt =====
-- What a refresh that returns has published: the rates, and the snapshots that keep them.
use umba_fx_engine.Prelude.{ℕ, ◌≡◌, Bool, true, false, ◌&&◌, some, ◌∷◌, if◌then◌else◌, any}
use umba_fx_engine.Prelude.Int.{ℤ, pos}
use umba_fx_engine.Money.{Currency, usd, eur, kes, ngn, same}
use umba_fx_engine.Schema.{Tables, RateSnapshot, RateRefresh, completed}
use umba_fx_engine.Settings.{Settings}
use umba_fx_engine.Session.{World, returned}
use umba_fx_engine.Rates.{canonical_pairs, round_value}
use umba_fx_engine.Rates.Provider.{ProviderRates, RateValue, finite, Reply, fetch}

-- What the reply says of a currency, relative to the base that the reply itself names: one for that
-- base, and the listed rate for every other. The base of the pair that is stored plays no part.
pub data IsProvided (rates : ProviderRates) (quote : Currency) : RateValue → Type 0 where
  of_base :
      same quote rates.base_currency ≡ true
      → IsProvided rates quote (finite (record { num = pos 1; scale = 0 }))
  listed :
      {v : RateValue}
      → same quote rates.base_currency ≡ false
      → rates.rates quote ≡ some v
      → IsProvided rates quote v

-- The rate of a row is what the reply says of its quote currency, rounded to the column.
pub record IsPriced (rates : ProviderRates) (base quote : Currency) (mid : ℤ) : Type 0 where
  pub provided : RateValue
  pub found : IsProvided rates quote provided
  pub rounded : round_value provided ≡ some mid

-- The published rate of a pair and the snapshot that it names.
pub record IsPublished (settings : Settings) (rates : ProviderRates) (time refresh_id : ℕ)
    (base quote : Currency) (s : RateSnapshot) (after : Tables) : Type 0 where
  pub priced : IsPriced rates base quote s.mid_rate
  pub of_pair : (s.base_currency ≡ base) × (s.quote_currency ≡ quote)
  pub of_refresh : s.rate_refresh_id ≡ refresh_id
  pub taken : s.fetched_at ≡ time
  pub source : s.raw_payload_hash ≡ rates.raw_payload_hash
  pub current :
      after.rates base quote
      ≡ some (record {
        base_currency = base;
        quote_currency = quote;
        mid_rate = s.mid_rate;
        buy_spread_bps = settings.default_buy_spread_bps;
        sell_spread_bps = settings.default_sell_spread_bps;
        rate_snapshot_id = s.id;
        last_updated_at = time;
      })

abbrev pub is_pair : Currency → Currency → Bool
is_pair base quote =
    any (λ (p : Currency × Currency). same base p.0 && same quote p.1) canonical_pairs

-- `Refreshed settings reply time before refresh after`: the provider answered with usable rates, and the
-- tables after are those before with one completed refresh, a snapshot for each pair, and the rates of
-- the three pairs; the other rates stand as they were.
pub record Refreshed (settings : Settings) (reply : Reply) (time : ℕ) (before : Tables)
    (refresh : RateRefresh) (after : Tables) : Type 0 where
  pub rates : ProviderRates
  pub fetched : (u : World) × (v : World) × (fetch reply u ≡ (returned rates, v))
  pub completion :
      (refresh.status ≡ completed) × (refresh.pairs_updated ≡ 3) × (refresh.fetched_at ≡ time)
  pub row : RateRefresh
  pub same_row : row ≡ record refresh { duration_ms = row.duration_ms }
  pub usd_kes : RateSnapshot
  pub usd_ngn : RateSnapshot
  pub usd_eur : RateSnapshot
  pub of_usd_kes : IsPublished settings rates time refresh.id usd kes usd_kes after
  pub of_usd_ngn : IsPublished settings rates time refresh.id usd ngn usd_ngn after
  pub of_usd_eur : IsPublished settings rates time refresh.id usd eur usd_eur after
  pub other_rates :
      (base quote : Currency)
      → (if is_pair base quote then before.rates base quote else after.rates base quote)
        ≡ before.rates base quote
  pub recorded : after ≡ record before {
    rates = after.rates;
    snapshots = usd_eur ∷ usd_ngn ∷ usd_kes ∷ before.snapshots;
    refreshes = row ∷ before.refreshes;
  }
