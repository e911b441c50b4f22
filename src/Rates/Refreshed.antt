-- ===== src/Rates/Refreshed.antt =====
-- A refresh that returns.
use umba_fx_engine.Prelude.{
  ℕ, suc, ◌-◌, ◌/◌, ◌≡◌, refl, sym, ap, ◌∙◌, String, Option, [], ◌∷◌, arith,
}
use umba_fx_engine.Prelude.Int.{ℤ}
use umba_fx_engine.Money.{usd, eur, kes, ngn, same}
use umba_fx_engine.Errors.{
  api, key_error, invalid_operation, value_error, integrity_error, data_error, runtime_error,
  no_result_found, other,
}
use umba_fx_engine.Schema.{Tables, RateRefresh}
use umba_fx_engine.Settings.{Settings}
use umba_fx_engine.Session.{World, Outcome, returned, raised}
use umba_fx_engine.Session.Laws.{bind-returned_elim, returned-injective}
use umba_fx_engine.Session.Reads.{KeepsTables-run}
use umba_fx_engine.Session.Backend.{Transaction, Engine, IsTransactional}
use umba_fx_engine.Repositories.Rates.{upsert, current_rate, snapshot_row}
use umba_fx_engine.Executions.Rejections.{handle}
use umba_fx_engine.Rates.{
  set_duration, duration_ms, persist_successful_refresh, record_successful_refresh, unusable,
  attempt_refresh, on_refresh_failure, refresh_rates,
}
use umba_fx_engine.Rates.Provider.{ProviderRates, Reply, fetch}
use umba_fx_engine.Rates.Reads.{KeepsTables-fetch}
use umba_fx_engine.Rates.Published.{IsPriced, Refreshed}
use umba_fx_engine.Rates.Stored.{
  row_of, fetched_of, refresh_of, stored_all, with_refresh, persist_successful_refresh-returned,
}

record_successful_refresh-returned :
    {e : Engine}
    → IsTransactional e
    → (refresh : RateRefresh) (provider : String) (started : ℕ) (id : Option String) (w : World)
      {a : RateRefresh} {v : World}
    → record_successful_refresh e refresh provider started id w ≡ (returned a, v)
    → (a ≡ refresh)
      × (v.db.committed ≡ record w.db.work {
        refreshes = set_duration ((w.clock w.readings - started) / 1000) w.db.work.refreshes;
      })
unfolding record_successful_refresh duration_ms
record_successful_refresh-returned law refresh provider started id w h = (
  sym (returned-injective (ap (λ p. p.0) h)),
  sym (ap (λ p. p.1.db.committed) h) ∙ rw law.commit_lem refl,
)

-- The tables after a refresh with the identifier `id` that took `ms` milliseconds.
abbrev refreshed_tables : Settings → ProviderRates → ℕ → ℕ → ℕ → ℤ → ℤ → ℤ → Tables → Tables
refreshed_tables settings rates started id ms a b c t =
    let f = fetched_of settings rates started in
    record t {
      rates = upsert (current_rate f (suc (suc (suc id))) (row_of eur c)) (
          upsert (current_rate f (suc (suc id)) (row_of ngn b))
            (upsert (current_rate f (suc id) (row_of kes a)) t.rates));
      snapshots =
          snapshot_row f id (suc (suc (suc id))) (row_of eur c)
          ∷ snapshot_row f id (suc (suc id)) (row_of ngn b)
          ∷ snapshot_row f id (suc id) (row_of kes a)
          ∷ t.snapshots;
      refreshes = record (refresh_of rates started id) { duration_ms = ms } ∷ t.refreshes;
    }

refreshed_tables-Refreshed :
    (settings : Settings) (reply : Reply) (rates : ProviderRates) (started id ms : ℕ) (a b c : ℤ)
    (t : Tables)
    → IsPriced rates usd kes a
    → IsPriced rates usd ngn b
    → IsPriced rates usd eur c
    → (u : World) × (v : World) × (fetch reply u ≡ (returned rates, v))
    → Refreshed settings reply started t
        (refresh_of rates started id)
        (refreshed_tables settings rates started id ms a b c t)
refreshed_tables-Refreshed settings reply rates started id ms a b c t pa pb pc fetched = record {
  rates = rates;
  fetched = fetched;
  completion = (refl, refl, refl);
  row = _;
  same_row = refl;
  usd_kes = snapshot_row (fetched_of settings rates started) id (suc id) (row_of kes a);
  usd_ngn = snapshot_row (fetched_of settings rates started) id (suc (suc id)) (row_of ngn b);
  usd_eur = snapshot_row (fetched_of settings rates started) id (suc (suc (suc id))) (row_of eur c);
  of_usd_kes = record {
    priced = pa;
    of_pair = (refl, refl);
    of_refresh = refl;
    taken = refl;
    source = refl;
    current = refl;
  };
  of_usd_ngn = record {
    priced = pb;
    of_pair = (refl, refl);
    of_refresh = refl;
    taken = refl;
    source = refl;
    current = refl;
  };
  of_usd_eur = record {
    priced = pc;
    of_pair = (refl, refl);
    of_refresh = refl;
    taken = refl;
    source = refl;
    current = refl;
  };
  other_rates = λ base quote. ground arith;
  recorded = refl;
}

written_tables :
    (settings : Settings) (rates : ProviderRates) (started id ms : ℕ) (a b c : ℤ) (start : World)
    (before : Transaction) (work : Tables)
    → work
      ≡ (stored_all
          (fetched_of settings rates started)
          id
          (row_of kes a ∷ row_of ngn b ∷ row_of eur c ∷ [])
          (with_refresh (refresh_of rates started id) start)).db.work
    → start.next_uuid ≡ id
    → start.db ≡ before
    → record work { refreshes = set_duration ms work.refreshes }
      ≡ refreshed_tables settings rates started id ms a b c before.work
written_tables settings rates started id ms a b c start before work h first same =
    rw (h, first, same) refl

attempt_refresh-Refreshed :
    {e : Engine}
    → IsTransactional e
    → (settings : Settings) (reply : Reply) (started : ℕ) (id : Option String) (w : World)
      {refresh : RateRefresh} {v : World}
    → attempt_refresh e settings reply started id w ≡ (returned refresh, v)
    → Refreshed settings reply started w.db.work refresh v.db.committed
unfolding attempt_refresh
attempt_refresh-Refreshed {e} law settings reply started id w {refresh} {v} h =
    bind-returned_elim (fetch reply) _ w h λ rates v1 h1 r1.
      bind-returned_elim (persist_successful_refresh settings rates started) _ v1 r1
        λ made v2 h2 r2.
          let p = persist_successful_refresh-returned settings rates started v1 h2 in
          let (same_made, committed) =
            record_successful_refresh-returned law made rates.provider started id v2 r2 in
          let start : p.start.db ≡ w.db =
            p.start_db ∙ KeepsTables-run (KeepsTables-fetch reply) h1 in
          let ms = (v2.clock v2.readings - started) / 1000 in
          let tables : v.db.committed
              ≡ refreshed_tables settings rates started p.start.next_uuid ms p.are.a p.are.b p.are.c
                  w.db.work =
            committed
            ∙ written_tables settings rates started p.start.next_uuid ms p.are.a p.are.b p.are.c
                p.start w.db v2.db.work p.written refl start in
          rw (same_made, p.refresh_lem, tables)
            (refreshed_tables-Refreshed settings reply rates started p.start.next_uuid ms p.are.a
              p.are.b p.are.c w.db.work p.are.priced_a p.are.priced_b p.are.priced_c (w, v1, h1))

module _ {e : Engine} (law : IsTransactional e) where
  handled-Refreshed :
      (started : ℕ) (id : Option String) (p : Outcome RateRefresh × World) {refresh : RateRefresh}
      {v : World}
      → handle (on_refresh_failure e started id) p.0 p.1 ≡ (returned refresh, v)
      → p ≡ (returned refresh, v)
  unfolding on_refresh_failure unusable
  handled-Refreshed started id (returned a, w) h = h
  handled-Refreshed started id (raised (api f), w) h = cc
  handled-Refreshed started id (raised key_error, w) h = cc
  handled-Refreshed started id (raised invalid_operation, w) h = cc
  handled-Refreshed started id (raised value_error, w) h = cc
  handled-Refreshed started id (raised integrity_error, w) h = cc
  handled-Refreshed started id (raised data_error, w) h = cc
  handled-Refreshed started id (raised runtime_error, w) h = cc
  handled-Refreshed started id (raised no_result_found, w) h = cc
  handled-Refreshed started id (raised (other name), w) h = cc

  pub refresh_rates-Refreshed :
      (settings : Settings) (reply : Reply) (id : Option String) (w : World) {refresh : RateRefresh}
      {v : World}
      → refresh_rates e settings reply id w ≡ (returned refresh, v)
      → Refreshed settings reply (w.clock w.readings) w.db.work refresh v.db.committed
  unfolding refresh_rates
  refresh_rates-Refreshed settings reply id w h =
      let started = w.clock w.readings in
      let next = record w { readings = suc w.readings } in
      attempt_refresh-Refreshed law settings reply started id next
        (handled-Refreshed started id (attempt_refresh e settings reply started id next) h)
