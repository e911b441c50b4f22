-- ===== src/Rates/Failure.antt =====
-- A refresh that fails: what it leaves in the tables.
use umba_fx_engine.Prelude.{length, ℕ, suc, ◌≡◌, refl, subst, String, Option, some, List, [], ◌∷◌}
use umba_fx_engine.Prelude.{◌⊎◌, inl, inr, ◌∙◌}
use umba_fx_engine.Errors.{
  ApiError, Exception, api, bad_gateway, key_error, invalid_operation, value_error, integrity_error,
  data_error, runtime_error, no_result_found, other,
}
use umba_fx_engine.Schema.{Tables, RateRefresh, failed}
use umba_fx_engine.Settings.{Settings}
use umba_fx_engine.Session.{World, Outcome, returned, raised, ◌>>◌, raise}
use umba_fx_engine.Session.Laws.{
  KeepsCommitted, keeps_rules, KeepsCommitted-bind, KeepsCommitted-pure,
}
use umba_fx_engine.Session.Atomic.{IsAtomic, IsAtomic-bind}
use umba_fx_engine.Session.Reads.{KeepsTables-KeepsCommitted}
use umba_fx_engine.Rates.Reads.{KeepsTables-rate_rows, KeepsTables-fetch}
use umba_fx_engine.Session.Backend.{Engine, IsTransactional}
use umba_fx_engine.Repositories.Rates.{
  RateRow, Fetched, store_pair_row, store_pair_rows, create_refresh_success, create_refresh_failure,
}
use umba_fx_engine.Executions.Rejections.{handle}
use umba_fx_engine.Rates.{
  canonical_pairs, unusable, rate_rows, duration_ms, persist_successful_refresh,
  record_successful_refresh, record_failed_refresh, attempt_refresh, on_refresh_failure,
  refresh_rates,
}
use umba_fx_engine.Rates.Provider.{Reply, ProviderRates, error_upstream_bad_response, fetch}

KeepsCommitted-store_pair_rows :
    (f : Fetched) (id : ℕ) (rows : List RateRow) → KeepsCommitted (store_pair_rows f id rows)
unfolding store_pair_rows store_pair_row
KeepsCommitted-store_pair_rows f id [] = KeepsCommitted-pure tt
KeepsCommitted-store_pair_rows f id (row ∷ rows) =
    KeepsCommitted-bind (store_pair_row f id row) _ (search keeps_rules depth 12)
      λ _. KeepsCommitted-store_pair_rows f id rows

KeepsCommitted-create_refresh_success :
    (f : Fetched) (n ms : ℕ) (rows : List RateRow)
    → KeepsCommitted (create_refresh_success f n ms rows)
unfolding create_refresh_success
KeepsCommitted-create_refresh_success f n ms rows =
    search (keeps_rules, KeepsCommitted-store_pair_rows) depth 12

KeepsCommitted-persist_successful_refresh :
    (settings : Settings) (rates : ProviderRates) (started : ℕ)
    → KeepsCommitted (persist_successful_refresh settings rates started)
unfolding persist_successful_refresh
KeepsCommitted-persist_successful_refresh settings rates started =
    KeepsCommitted-bind (rate_rows rates canonical_pairs) _
      (KeepsTables-KeepsCommitted (KeepsTables-rate_rows rates canonical_pairs))
      λ rows. KeepsCommitted-create_refresh_success _ (length rows) 0 rows

IsAtomic-record_successful_refresh :
    (e : Engine) (refresh : RateRefresh) (provider : String) (started : ℕ) (id : Option String)
    → IsAtomic (record_successful_refresh e refresh provider started id)
unfolding record_successful_refresh duration_ms
IsAtomic-record_successful_refresh e refresh provider started id = record { at = λ w h. cc }

IsAtomic-attempt_refresh :
    (e : Engine) (settings : Settings) (reply : Reply) (started : ℕ) (id : Option String)
    → IsAtomic (attempt_refresh e settings reply started id)
unfolding attempt_refresh
IsAtomic-attempt_refresh e settings reply started id =
    IsAtomic-bind (fetch reply) _ (KeepsTables-KeepsCommitted (KeepsTables-fetch reply)) λ rates.
      IsAtomic-bind (persist_successful_refresh settings rates started) _
        (KeepsCommitted-persist_successful_refresh settings rates started)
        λ refresh. IsAtomic-record_successful_refresh e refresh rates.provider started id

-- `error` of the second handler.
abbrev unusable_rates : ApiError
unusable_rates = bad_gateway error_upstream_bad_response "Rate provider returned unusable rates."

-- The tables after a failure: those before it, with one row that says what failed.
pub record IsFailure (x : ApiError) (before after : Tables) : Type 0 where
  pub row : RateRefresh
  pub status : row.status ≡ failed
  pub code : row.error_code ≡ some x.code
  pub message : row.error_message ≡ some x.detail
  pub updated : row.pairs_updated ≡ 0
  pub recorded : after ≡ record before { refreshes = row ∷ before.refreshes }

module _ {e : Engine} (law : IsTransactional e) where
  record_failed_refresh-IsFailure :
      (started : ℕ) (x : ApiError) (id : Option String) (w : World)
      → let (r, v) = record_failed_refresh e started x id w in
        (r ≡ returned tt) × IsFailure x w.db.committed v.db.committed
  unfolding record_failed_refresh create_refresh_failure duration_ms
  record_failed_refresh-IsFailure started x id w =
      rw (law.rollback_lem w.db, law.commit_lem)
        (
          refl,
          record {
            row = _;
            status = refl;
            code = refl;
            message = refl;
            updated = refl;
            recorded = refl;
          },
        )

  raise_after-IsFailure :
      (started : ℕ) (f : ApiError) (id : Option String) (w : World) {x : ApiError}
      → let (r, v) = (record_failed_refresh e started f id >> raise {A = RateRefresh} (api f)) w in
        r ≡ raised (api x) → IsFailure x w.db.committed v.db.committed
  unfolding record_failed_refresh create_refresh_failure duration_ms
  raise_after-IsFailure started f id w {x} h =
      let same : f ≡ x = cc in
      subst
        (λ y. IsFailure y w.db.committed (record_failed_refresh e started f id w).1.db.committed)
        same (record_failed_refresh-IsFailure started f id w).1

  on_refresh_failure-IsFailure :
      (started : ℕ) (id : Option String) (y : Exception) (w : World) {x : ApiError}
      → let (r, v) = on_refresh_failure e started id y w in
        r ≡ raised (api x) → IsFailure x w.db.committed v.db.committed
  unfolding on_refresh_failure unusable
  on_refresh_failure-IsFailure started id (api f) w h = raise_after-IsFailure started f id w h
  on_refresh_failure-IsFailure started id key_error w h =
      raise_after-IsFailure started unusable_rates id w h
  on_refresh_failure-IsFailure started id invalid_operation w h =
      raise_after-IsFailure started unusable_rates id w h
  on_refresh_failure-IsFailure started id value_error w h =
      raise_after-IsFailure started unusable_rates id w h
  on_refresh_failure-IsFailure started id integrity_error w h = cc
  on_refresh_failure-IsFailure started id data_error w h = cc
  on_refresh_failure-IsFailure started id runtime_error w h = cc
  on_refresh_failure-IsFailure started id no_result_found w h = cc
  on_refresh_failure-IsFailure started id (other name) w h = cc

  handled-IsFailure :
      (started : ℕ) (id : Option String) (before : Tables) (p : Outcome RateRefresh × World)
      {x : ApiError}
      → ((y : Exception) → p.0 ≡ raised y → p.1.db.committed ≡ before)
      → let (r, v) = handle (on_refresh_failure e started id) p.0 p.1 in
        r ≡ raised (api x) → IsFailure x before v.db.committed
  handled-IsFailure started id before (returned a, w) kept h = cc
  handled-IsFailure started id before (raised y, w) {x} kept h =
      subst
        (λ t. IsFailure x t (handle (on_refresh_failure e started id) (raised y) w).1.db.committed)
        (kept y refl) (on_refresh_failure-IsFailure started id y w h)

  on_refresh_failure_others :
      (started : ℕ) (id : Option String) (x : Exception) (w : World) {y : Exception}
      → (on_refresh_failure e started id x w).0 ≡ raised y
      → ((a : ApiError) × (y ≡ api a))
        ⊎ ((on_refresh_failure e started id x w).1.db.committed ≡ w.db.committed)
  unfolding on_refresh_failure unusable record_failed_refresh create_refresh_failure duration_ms
  on_refresh_failure_others started id (api f) w h = inl (f, cc)
  on_refresh_failure_others started id key_error w h = inl (unusable_rates, cc)
  on_refresh_failure_others started id invalid_operation w h = inl (unusable_rates, cc)
  on_refresh_failure_others started id value_error w h = inl (unusable_rates, cc)
  on_refresh_failure_others started id integrity_error w h = inr refl
  on_refresh_failure_others started id data_error w h = inr refl
  on_refresh_failure_others started id runtime_error w h = inr refl
  on_refresh_failure_others started id no_result_found w h = inr refl
  on_refresh_failure_others started id (other name) w h = inr refl

  handled_others :
      (started : ℕ) (id : Option String) (before : Tables) (p : Outcome RateRefresh × World)
      {y : Exception}
      → ((x : Exception) → p.0 ≡ raised x → p.1.db.committed ≡ before)
      → (handle (on_refresh_failure e started id) p.0 p.1).0 ≡ raised y
      → ((a : ApiError) × (y ≡ api a))
        ⊎ ((handle (on_refresh_failure e started id) p.0 p.1).1.db.committed ≡ before)
  handled_others started id before (returned a, w) kept h = cc
  handled_others started id before (raised x, w) kept h =
      elim (on_refresh_failure_others started id x w h) [
        | inl a ↦ inl a
        | inr same ↦ inr (same ∙ kept x refl)
      ]

  -- When a refresh fails with an API error, whatever the provider answered and wherever it failed, the
  -- committed tables are those before it with one row of `rate_refreshes`, which is failed, counts no
  -- pair and has the error's code and detail: no rate and no snapshot changes.
  pub refresh_rates-IsFailure :
      (settings : Settings) (reply : Reply) (id : Option String) (w : World) {x : ApiError}
      → (refresh_rates e settings reply id w).0 ≡ raised (api x)
      → IsFailure x w.db.committed (refresh_rates e settings reply id w).1.db.committed
  unfolding refresh_rates
  refresh_rates-IsFailure settings reply id w h =
      let started = w.clock w.readings in
      let next = record w { readings = suc w.readings } in
      handled-IsFailure started id w.db.committed (attempt_refresh e settings reply started id next)
        (λ y k. (IsAtomic-attempt_refresh e settings reply started id).at next k) h

  -- Any other exception goes through, and leaves the committed tables as they were.
  pub refresh_rates-others :
      (settings : Settings) (reply : Reply) (id : Option String) (w : World) {y : Exception}
      → (refresh_rates e settings reply id w).0 ≡ raised y
      → ((x : ApiError) × (y ≡ api x))
        ⊎ ((refresh_rates e settings reply id w).1.db.committed ≡ w.db.committed)
  unfolding refresh_rates
  refresh_rates-others settings reply id w h =
      let started = w.clock w.readings in
      let next = record w { readings = suc w.readings } in
      handled_others started id w.db.committed (attempt_refresh e settings reply started id next)
        (λ y k. (IsAtomic-attempt_refresh e settings reply started id).at next k) h
