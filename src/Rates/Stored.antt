-- ===== src/Rates/Stored.antt =====
-- The rows that a refresh writes before it commits.
use umba_fx_engine.Prelude.{
  some-injective, ℕ, suc, ◌≡◌, refl, sym, ap, ◌∙◌, none, some, List, [], ◌∷◌, subst, length,
  Bool-cases, inl, inr, arith,
}
use umba_fx_engine.Prelude.Int.{ℤ}
use umba_fx_engine.Money.{Currency, usd, eur, kes, ngn, same}
use umba_fx_engine.Errors.{key_error, invalid_operation}
use umba_fx_engine.Schema.{RateRefresh, completed}
use umba_fx_engine.Schema.Columns.{numeric_fits}
use umba_fx_engine.Settings.{Settings}
use umba_fx_engine.Session.{World, returned, or_raise}
use umba_fx_engine.Session.Laws.{bind-returned_elim, returned-injective, or_raise-returned}
use umba_fx_engine.Session.Reads.{KeepsTables-run}
use umba_fx_engine.Repositories.Rates.{
  RateRow, Fetched, upsert, current_rate, snapshot_row, store_pair_row, store_pair_rows,
  create_refresh_success,
}
use umba_fx_engine.Rates.{canonical_pairs, rate_rows, round_value, persist_successful_refresh}
use umba_fx_engine.Rates.Provider.{ProviderRates, RateValue, pair_mid_rate}
use umba_fx_engine.Rates.Reads.{KeepsTables-rate_rows}
use umba_fx_engine.Rates.Published.{IsProvided, of_base, listed, IsPriced}

pair_mid_rate-IsProvided :
    (rates : ProviderRates) (quote : Currency) {v : RateValue}
    → pair_mid_rate rates quote ≡ some v
    → IsProvided rates quote v
unfolding pair_mid_rate
pair_mid_rate-IsProvided rates quote h = elim (Bool-cases (same quote rates.base_currency)) [
  | inl base ↦ subst (IsProvided rates quote) (some-injective (rw base at h)) (of_base base)
  | inr other ↦ listed other (rw other at h)
]

-- The rows answer the pairs one by one.
abbrev ArePriced : ProviderRates → List (Currency × Currency) → List RateRow → Type 0
ArePriced rates [] [] = Unit
ArePriced rates [] (row ∷ rows) = ⊥
ArePriced rates (p ∷ ps) [] = ⊥
ArePriced rates ((base, quote) ∷ ps) (row ∷ rows) =
    (row.base_currency ≡ base)
    × (row.quote_currency ≡ quote)
    × IsPriced rates base quote row.mid_rate
    × ArePriced rates ps rows

rate_rows-ArePriced :
    (rates : ProviderRates) (pairs : List (Currency × Currency)) (w : World) {rows : List RateRow}
    {v : World}
    → rate_rows rates pairs w ≡ (returned rows, v)
    → ArePriced rates pairs rows
unfolding rate_rows
rate_rows-ArePriced rates [] w h =
    let empty : [] ≡ _ = returned-injective (ap (λ p. p.0) h) in subst (ArePriced rates []) empty tt
rate_rows-ArePriced rates ((base, quote) ∷ pairs) w h =
    bind-returned_elim (or_raise key_error (pair_mid_rate rates quote)) _ w h λ mid v1 h1 r1.
      bind-returned_elim (or_raise invalid_operation (round_value mid)) _ v1 r1 λ rounded v2 h2 r2.
        bind-returned_elim (rate_rows rates pairs) _ v2 r2 λ rest v3 h3 r3.
          let priced : IsPriced rates base quote rounded = record {
            provided = mid;
            found =
                pair_mid_rate-IsProvided rates quote
                  (or_raise-returned key_error (pair_mid_rate rates quote) w h1).1;
            rounded = (or_raise-returned invalid_operation (round_value mid) v1 h2).1;
          } in
          subst (ArePriced rates ((base, quote) ∷ pairs)) (returned-injective (ap (λ p. p.0) r3))
            (refl, refl, priced, rate_rows-ArePriced rates pairs v2 h3)

-- One row stored: its snapshot, and the rate of its pair.
abbrev pub stored : Fetched → ℕ → RateRow → World → World
stored f refresh_id row w = record w {
  next_uuid = suc w.next_uuid;
  db = record w.db {
    work = record w.db.work {
      snapshots = snapshot_row f refresh_id w.next_uuid row ∷ w.db.work.snapshots;
      rates = upsert (current_rate f w.next_uuid row) w.db.work.rates;
    };
  };
}

store_pair_row-returned :
    (f : Fetched) (id : ℕ) (row : RateRow) (w : World) {a : Unit {0}} {v : World}
    → store_pair_row f id row w ≡ (returned a, v)
    → v ≡ stored f id row w
unfolding store_pair_row
store_pair_row-returned f id row w h = elim (Bool-cases (numeric_fits row.mid_rate)) [
  | inl fits ↦ ground arith
  | inr beyond ↦ ground arith
]

abbrev pub stored_all : Fetched → ℕ → List RateRow → World → World
stored_all f id [] w = w
stored_all f id (row ∷ rows) w = stored_all f id rows (stored f id row w)

store_pair_rows-returned :
    (f : Fetched) (id : ℕ) (rows : List RateRow) (w : World) {a : Unit {0}} {v : World}
    → store_pair_rows f id rows w ≡ (returned a, v)
    → v ≡ stored_all f id rows w
unfolding store_pair_rows
store_pair_rows-returned f id [] w h = sym (ap (λ p. p.1) h)
store_pair_rows-returned f id (row ∷ rows) w h =
    bind-returned_elim (store_pair_row f id row) _ w h λ _ v1 h1 r1.
      let done = store_pair_row-returned f id row w h1 in
      store_pair_rows-returned f id rows (stored f id row w) (rw done at r1)

abbrev pub row_of : Currency → ℤ → RateRow
row_of quote mid = record { base_currency = usd; quote_currency = quote; mid_rate = mid }

row_of-mid_rate :
    (row : RateRow) {quote : Currency}
    → row.base_currency ≡ usd
    → row.quote_currency ≡ quote
    → row ≡ row_of quote row.mid_rate
row_of-mid_rate row h k = rw (← h, ← k) refl

-- The rows of a refresh.
pub record AreRows (rates : ProviderRates) (rows : List RateRow) : Type 0 where
  pub a : ℤ
  pub b : ℤ
  pub c : ℤ
  pub rows_lem : rows ≡ row_of kes a ∷ row_of ngn b ∷ row_of eur c ∷ []
  pub priced_a : IsPriced rates usd kes a
  pub priced_b : IsPriced rates usd ngn b
  pub priced_c : IsPriced rates usd eur c

ArePriced-AreRows :
    (rates : ProviderRates) (rows : List RateRow)
    → ArePriced rates canonical_pairs rows
    → AreRows rates rows
ArePriced-AreRows rates (x ∷ y ∷ z ∷ []) (xb, xq, xp, (yb, yq, yp, (zb, zq, zp, done))) = record {
  a = x.mid_rate;
  b = y.mid_rate;
  c = z.mid_rate;
  rows_lem = rw (row_of-mid_rate x xb xq, row_of-mid_rate y yb yq, row_of-mid_rate z zb zq) refl;
  priced_a = xp;
  priced_b = yp;
  priced_c = zp;
}
ArePriced-AreRows rates [] priced = elim priced [ ]
ArePriced-AreRows rates (x ∷ []) (_, _, _, priced) = elim priced [ ]
ArePriced-AreRows rates (x ∷ y ∷ []) (_, _, _, (_, _, _, priced)) = elim priced [ ]
ArePriced-AreRows rates (x ∷ y ∷ z ∷ u ∷ rows) (_, _, _, (_, _, _, (_, _, _, priced))) =
    elim priced [ ]

abbrev pub fetched_of : Settings → ProviderRates → ℕ → Fetched
fetched_of settings rates started = record {
  provider = rates.provider;
  provider_base_currency = rates.base_currency;
  provider_timestamp = rates.provider_timestamp;
  fetched_at = started;
  raw_payload_hash = rates.raw_payload_hash;
  buy_spread_bps = settings.default_buy_spread_bps;
  sell_spread_bps = settings.default_sell_spread_bps;
}

abbrev pub refresh_of : ProviderRates → ℕ → ℕ → RateRefresh
refresh_of rates started id = record {
  id = id;
  provider = rates.provider;
  status = completed;
  provider_base_currency = some rates.base_currency;
  provider_timestamp = rates.provider_timestamp;
  fetched_at = started;
  pairs_updated = 3;
  error_code = none;
  error_message = none;
  duration_ms = 0;
}

abbrev pub with_refresh : RateRefresh → World → World
with_refresh refresh w = record w {
  next_uuid = suc w.next_uuid;
  db = record w.db { work = record w.db.work { refreshes = refresh ∷ w.db.work.refreshes } };
}

-- What `persist_successful_refresh` has written when it returns.
pub record Persisted (settings : Settings) (rates : ProviderRates) (started : ℕ) (w : World)
    (refresh : RateRefresh) (v : World) : Type 0 where
  pub start : World
  pub made : List RateRow
  pub are : AreRows rates made
  pub start_db : start.db ≡ w.db
  pub refresh_lem : refresh ≡ refresh_of rates started start.next_uuid
  pub written :
      v.db.work
      ≡ (stored_all
          (fetched_of settings rates started)
          start.next_uuid
          (row_of kes are.a ∷ row_of ngn are.b ∷ row_of eur are.c ∷ [])
          (with_refresh (refresh_of rates started start.next_uuid) start)).db.work

pub persist_successful_refresh-returned :
    (settings : Settings) (rates : ProviderRates) (started : ℕ) (w : World) {refresh : RateRefresh}
    {v : World}
    → persist_successful_refresh settings rates started w ≡ (returned refresh, v)
    → Persisted settings rates started w refresh v
unfolding persist_successful_refresh create_refresh_success
persist_successful_refresh-returned settings rates started w {refresh} {v} h =
    bind-returned_elim (rate_rows rates canonical_pairs) _ w h λ rows v1 h1 r1.
      let f = fetched_of settings rates started in
      let are = ArePriced-AreRows rates rows (rate_rows-ArePriced rates canonical_pairs w h1) in
      let made : RateRefresh = record (refresh_of rates started v1.next_uuid) {
        pairs_updated = length rows;
      } in
      let counted : made ≡ refresh_of rates started v1.next_uuid = rw are.rows_lem refl in
      bind-returned_elim (store_pair_rows (fetched_of settings rates started) v1.next_uuid rows) _
        (with_refresh made v1) r1
        λ _ v2 h2 r2.
          let stored_lem =
            store_pair_rows-returned (fetched_of settings rates started) v1.next_uuid rows
              (with_refresh made v1) h2 in
          let same_made : made ≡ refresh = returned-injective (ap (λ p. p.0) r2) in
          let last : v2 ≡ v = ap (λ p. p.1) r2 in
          record {
            start = v1;
            made = rows;
            are = are;
            start_db = KeepsTables-run (KeepsTables-rate_rows rates canonical_pairs) h1;
            refresh_lem = sym same_made ∙ counted;
            written =
                ap (λ (x : World). x.db.work) (sym last ∙ stored_lem)
                ∙ ap (λ r. (stored_all f v1.next_uuid rows (with_refresh r v1)).db.work) counted
                ∙ ap
                    (λ rs.
                      (stored_all f v1.next_uuid rs
                        (with_refresh (refresh_of rates started v1.next_uuid) v1)).db.work)
                    are.rows_lem;
          }
