-- ===== src/Executions/Refusals.antt =====
-- `execute_quote` on a first request that it must refuse.
use umba_fx_engine.Prelude.{
  ℕ, ◌≤◌, ◌≡◌, ap, ◌∙◌, true, false, Option, none, some, arith, find?, ◌==◌, str_eq,
}
use umba_fx_engine.Errors.{Exception, api, conflict}
use umba_fx_engine.Schema.{Quote}
use umba_fx_engine.Observability.{quote_expired, execution_failure}
use umba_fx_engine.Session.{World, Metrics, returned, raised}
use umba_fx_engine.Session.Backend.{Engine, IsTransactional}
use umba_fx_engine.Executions.{
  key_fits, claim_key, execute_once, first_use, on_existing_key, require_key, execute_quote,
}
use umba_fx_engine.Executions.Rejections.{
  Request, on_failure, guarded, error_quote_expired, error_quote_already_executed,
}
use umba_fx_engine.Executions.Checks.{
  executions_endpoint, is_executed, set_key, lock_quote, check_unexecuted, check_expiry,
}
use umba_fx_engine.Executions.Movement.{settle}

-- The row of the key that a first request claims.
abbrev pub claimed : Request → World → World
claimed q w = record w {
  db = record w.db {
    work =
        set_key q.idempotency_key
          (record {
            request_hash = q.req_hash;
            response_payload = none;
            status_code = none;
            completed_at = none;
          })
          w.db.work;
  };
}

-- The request is the first under its key.
pub record IsFirst (q : Request) (w : World) : Type 0 where
  pub nonempty : str_eq q.idempotency_key "" ≡ false
  pub fits : key_fits q.idempotency_key ≡ true
  pub fresh : w.db.work.keys executions_endpoint q.idempotency_key ≡ none

claim_key-first :
    (e : Engine) (q : Request) (w : World)
    → IsFirst q w
    → claim_key e q w ≡ (returned tt, claimed q w)
unfolding claim_key
claim_key-first e q w first = ground (arith, first.fits, first.fresh)

require_key-first : (q : Request) (w : World) → IsFirst q w → require_key q w ≡ (returned tt, w)
unfolding require_key
require_key-first q w first = ground (arith, first.nonempty)

pub execute_quote-first :
    (e : Engine) (q : Request) (w : World)
    → IsFirst q w
    → execute_quote e q w ≡ execute_once e q (claimed q w)
unfolding execute_quote on_existing_key first_use
execute_quote-first e q w first =
    rw (require_key-first q w first, first.fresh, claim_key-first e q w first)

pub lock_quote-found :
    (e : Engine) (id : ℕ) (w : World) {quote : Quote}
    → find? (λ (x : Quote). x.id == id) w.db.work.quotes ≡ some quote
    → lock_quote e id w ≡ (returned quote, w)
unfolding lock_quote
lock_quote-found e id w found = rw found

execute_once-failure :
    (e : Engine) (q : Request) (w : World) {quote : Quote} {x : Exception} {v : World}
    → find? (λ (r : Quote). r.id == q.quote_id) w.db.work.quotes ≡ some quote
    → settle e q quote w ≡ (raised x, v)
    → execute_once e q w ≡ on_failure e q (some quote.customer_id) x v
unfolding execute_once guarded
execute_once-failure e q w found h = rw (lock_quote-found e q.quote_id w found, h)

pub check_unexecuted-passes :
    (e : Engine) (quote : Quote) (w : World)
    → is_executed quote.id w.db.work.executions ≡ false
    → check_unexecuted e quote w ≡ (returned tt, w)
unfolding check_unexecuted
check_unexecuted-passes e quote w h = rw h

module _ {e : Engine} (law : IsTransactional e) where
  on_failure-raises :
      {A : Type 0} (q : Request) (c : Option ℕ) (x : Exception) (w : World)
      → let (r, v) = on_failure {A = A} e q c x w in
        (r ≡ raised x)
        × (v.db.work ≡ w.db.committed)
        × (v.db.committed ≡ w.db.committed)
        × (v.metrics ≡ execution_failure w.metrics)
  unfolding on_failure
  on_failure-raises q c x w = ground (arith, law.rollback_lem w.db)

  check_expiry-late :
      (quote : Quote) (w : World)
      → quote.expires_at ≤ w.clock w.readings
      → (v : World) × (check_expiry e quote w
          ≡ (raised (api (conflict error_quote_expired "Quote has expired.")), v))
        × (v.db.work ≡ w.db.committed)
        × (v.db.committed ≡ w.db.committed)
        × (v.metrics ≡ quote_expired w.metrics)
  unfolding check_expiry
  check_expiry-late quote w late = (
    (check_expiry e quote w).1,
    ground arith,
    ground (arith, law.rollback_lem w.db),
    ground (arith, law.rollback_lem w.db),
    ground arith,
  )

  check_unexecuted-done :
      (quote : Quote) (w : World)
      → is_executed quote.id w.db.work.executions ≡ true
      → (v : World) × (check_unexecuted e quote w ≡ (
        raised (api (conflict error_quote_already_executed "Quote has already been executed.")),
        v,
      ))
        × (v.db.work ≡ w.db.committed)
        × (v.db.committed ≡ w.db.committed)
        × (v.metrics ≡ w.metrics)
  unfolding check_unexecuted
  check_unexecuted-done quote w done = (
    (check_unexecuted e quote w).1,
    ground arith,
    ground (arith, law.rollback_lem w.db),
    ground (arith, law.rollback_lem w.db),
    ground arith,
  )

  -- `IsRefused x q w metrics`: the call has raised `x`, nothing of the request is left in the tables,
  -- and the counters are `metrics` with one failure more.
  pub record IsRefused (x : Exception) (q : Request) (w : World) (metrics : Metrics) : Type 0 where
    pub raises : (execute_quote e q w).0 ≡ raised x
    pub work : (execute_quote e q w).1.db.work ≡ w.db.committed
    pub committed : (execute_quote e q w).1.db.committed ≡ w.db.committed
    pub counted : (execute_quote e q w).1.metrics ≡ execution_failure metrics

  pub settle-IsRefused :
      (q : Request) (w : World) {quote : Quote} {x : Exception} {v : World} {metrics : Metrics}
      → IsFirst q w
      → find? (λ (r : Quote). r.id == q.quote_id) w.db.work.quotes ≡ some quote
      → settle e q quote (claimed q w) ≡ (raised x, v)
      → v.db.committed ≡ w.db.committed
      → v.metrics ≡ metrics
      → IsRefused x q w metrics
  settle-IsRefused q w {quote} {x} {v} first found h kept counted =
      let run : execute_quote e q w ≡ on_failure e q (some quote.customer_id) x v =
        execute_quote-first e q w first ∙ execute_once-failure e q (claimed q w) found h in
      let (raises, work, committed, metrics) = on_failure-raises q (some quote.customer_id) x v in
      record {
        raises = ap (λ p. p.0) run ∙ raises;
        work = ap (λ p. p.1.db.work) run ∙ work ∙ kept;
        committed = ap (λ p. p.1.db.committed) run ∙ committed ∙ kept;
        counted = ap (λ p. p.1.metrics) run ∙ metrics ∙ ap execution_failure counted;
      }

  -- A first request for an unexecuted quote whose time has come is refused, and nothing is left of it
  -- but the counters of expired quotes and of failures.
  pub execute_quote_expired :
      (q : Request) (w : World) {quote : Quote}
      → IsFirst q w
      → find? (λ (r : Quote). r.id == q.quote_id) w.db.work.quotes ≡ some quote
      → is_executed quote.id w.db.work.executions ≡ false
      → quote.expires_at ≤ w.clock w.readings
      → IsRefused
          (api (conflict error_quote_expired "Quote has expired."))
          q
          w
          (quote_expired w.metrics)
  unfolding settle
  execute_quote_expired q w {quote} first found unexecuted late =
      let (v, run, _, kept, counted) = check_expiry-late quote (claimed q w) late in
      settle-IsRefused q w {v = v} first found
        (rw (check_unexecuted-passes e quote (claimed q w) unexecuted, run)) kept counted

  -- A first request, under whatever key, for a quote that has an execution is refused, and nothing is
  -- left of it but the counter of failures.
  pub execute_quote_executed :
      (q : Request) (w : World) {quote : Quote}
      → IsFirst q w
      → find? (λ (r : Quote). r.id == q.quote_id) w.db.work.quotes ≡ some quote
      → is_executed quote.id w.db.work.executions ≡ true
      → IsRefused
          (api (conflict error_quote_already_executed "Quote has already been executed."))
          q
          w
          w.metrics
  unfolding settle
  execute_quote_executed q w {quote} first found done =
      let (v, run, _, kept, counted) = check_unexecuted-done quote (claimed q w) done in
      settle-IsRefused q w {v = v} first found (rw run) kept counted
