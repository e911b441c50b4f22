-- ===== src/Executions/Idempotency.antt =====
-- `execute_quote` and its keys: what a second request gets, under the same key and under another.
use umba_fx_engine.Prelude.{
  ℕ, ◌≡◌, refl, ◌∙◌, sym, true, false, some, arith, find?, ◌==◌, str_eq, eq_iff, ◌≢◌, Bool-cases,
  inl, inr, List, [], ◌∷◌,
}
use text.Mathlib.TextPositions.{eq_refl}
use umba_fx_engine.Errors.{api, conflict}
use umba_fx_engine.Schema.{Tables, Quote, Payload, IdempotencyKey}
use umba_fx_engine.Observability.{idempotency_replay, idempotency_conflict}
use umba_fx_engine.Session.{World, returned, raised}
use umba_fx_engine.Session.Backend.{Engine, IsTransactional}
use umba_fx_engine.Executions.{stored_response, execute_quote}
use umba_fx_engine.Executions.Rejections.{Request, error_idempotency_conflict}
use umba_fx_engine.Executions.Checks.{executions_endpoint, is_executed}
use umba_fx_engine.Executions.Effects.{completed_key}
use umba_fx_engine.Executions.Spec.{Transfer}
use umba_fx_engine.Executions.Correct.{execute_quote-Transfer}
use umba_fx_engine.Repositories.Balances.Range.{InRange}
use mathlib.Core.Bool.{false≢true}

abbrev replayed : World → World
replayed w = record w { metrics = idempotency_replay w.metrics }

-- A key, not empty, that stands completed for the same request is answered with the stored response, and only
-- the replay counter changes.
pub execute_quote_replays :
    (e : Engine) (q : Request) (w : World) {row : IdempotencyKey} {p : Payload}
    → str_eq q.idempotency_key "" ≡ false
    → w.db.work.keys executions_endpoint q.idempotency_key ≡ some row
    → row.request_hash ≡ q.req_hash
    → stored_response row.completed_at row.response_payload ≡ some p
    → execute_quote e q w ≡ (returned (p, true), replayed w)
unfolding execute_quote
execute_quote_replays e q w {row} nonempty found same stored =
    ground (arith, eq_iff row.request_hash q.req_hash)

-- A key, not empty, that stands for a request with another hash is refused with a 409, the conflict is
-- counted, and no table changes.
pub execute_quote_reuse :
    (e : Engine) (q : Request) (w : World) {row : IdempotencyKey}
    → str_eq q.idempotency_key "" ≡ false
    → w.db.work.keys executions_endpoint q.idempotency_key ≡ some row
    → row.request_hash ≢ q.req_hash
    → let (r, v) = execute_quote e q w in
      (r
        ≡ raised (
            api (
              conflict error_idempotency_conflict
                "Idempotency-Key was already used with a different request.")))
      × (v.db ≡ w.db)
      × (v.metrics ≡ idempotency_conflict w.metrics)
unfolding execute_quote
execute_quote_reuse e q w {row} nonempty found differ =
    ground (arith, eq_iff row.request_hash q.req_hash)

-- What a transfer stores under its key is found again.
pub key-Transfer :
    {q : Request} {time : ℕ} {before : Tables} {p : Payload} {after : Tables}
    (t : Transfer q time before p after)
    → after.keys executions_endpoint q.idempotency_key ≡ some (completed_key q p t.completed_at)
key-Transfer {q} t = t.keys executions_endpoint q.idempotency_key ∙ rw (eq_refl q.idempotency_key)

-- A retry of a request that was executed under a key that is not empty, in any later state that still holds its key, gets the same
-- response, and no table changes.
pub execute_quote_retry :
    (e : Engine) {q : Request} {time : ℕ} {before : Tables} {p : Payload} {after : Tables}
    (w : World)
    → str_eq q.idempotency_key "" ≡ false
    → Transfer q time before p after
    → w.db.work.keys executions_endpoint q.idempotency_key
      ≡ after.keys executions_endpoint q.idempotency_key
    → execute_quote e q w ≡ (returned (p, true), replayed w)
execute_quote_retry e {q} w nonempty t kept =
    execute_quote_replays e q w nonempty (kept ∙ key-Transfer t) refl refl

pub find-id :
    (id : ℕ) (quotes : List Quote) {quote : Quote}
    → find? (λ (x : Quote). x.id == id) quotes ≡ some quote
    → quote.id ≡ id
find-id id [] h = cc
find-id id (x ∷ xs) h = elim (Bool-cases (x.id == id)) [
  | inl here ↦ ground arith
  | inr later ↦ find-id id xs (rw later at h)
]

-- A transfer is of a quote that had no execution, and that has one now.
pub Transfer-is_executed :
    {q : Request} {time : ℕ} {before : Tables} {p : Payload} {after : Tables}
    → Transfer q time before p after
    → (is_executed q.quote_id before.executions ≡ false)
      × (is_executed q.quote_id after.executions ≡ true)
Transfer-is_executed {q} {before} t =
    let id = find-id q.quote_id before.quotes t.found in
    (rw (← id) t.unexecuted, rw (t.executions, ← id) (ground arith))

-- Once a quote has an execution, and while balances fit their column, no call returns a new one, under
-- whatever key.
pub execute_quote_once :
    {e : Engine}
    → IsTransactional e
    → (q : Request) (w : World) {p : Payload} {v : World} → InRange w.db.work.balances
    → is_executed q.quote_id w.db.work.executions ≡ true
    → execute_quote e q w ≢ (returned (p, false), v)
execute_quote_once law q w range executed h =
    false≢true (sym (Transfer-is_executed (execute_quote-Transfer law q w h range)).0 ∙ executed)
