-- ===== src/Executions.antt =====
-- app/services/executions.py: `execute_quote`, the one operation that moves money between balances.
pub mod Rejections
pub mod Checks
pub mod Movement
pub mod Steps
pub mod Effects
pub mod Spec
pub mod Atomic
pub mod Correct
pub mod Idempotency
pub mod Refusals
pub mod Returns
pub mod Success
pub mod Funds
pub mod Replays
use Prim.Native.String.{count as count_chars}
use umba_fx_engine.Prelude.{
  ℕ, String, Bool, true, false, not, Option, none, some, str_eq, leb, if◌then◌else◌,
}
use umba_fx_engine.Errors.{api, data_error, conflict, validation_error}
use umba_fx_engine.Schema.{Quote, IdempotencyKey, Payload}
use umba_fx_engine.Observability.{idempotency_conflict, idempotency_replay}
use umba_fx_engine.Session.{
  Action, ◌>>=◌, ◌>>◌, pure, raise, gets, write, raise_if, when, count, rollback,
}
use umba_fx_engine.Session.Backend.{Engine}
use Rejections.{
  Request, log_rejected, error_idempotency_conflict, error_idempotency_key_missing, guarded,
}
use Checks.{executions_endpoint, set_key, lock_quote}
use Movement.{settle, publish}

-- `request_hash` on the body that the route builds.
unfoldable pub request_hash : Engine → String → String → ℕ → String
request_hash e method path quote_id = e.digest method path (e.str_uuid quote_id)

-- `IDEMPOTENCY_KEY_MAX_LENGTH`
abbrev pub key_fits : String → Bool
key_fits key = leb (count_chars key) 255

abbrev pub is_taken : Option IdempotencyKey → Bool
is_taken none = false
is_taken (some row) = true

-- The insert of the key and its flush. Only the broken unique constraint is caught.
unfoldable pub claim_key : Engine → Request → Action (Unit {0})
unfolding log_rejected
claim_key e q = do
  raise_if (not (key_fits q.idempotency_key)) data_error
  row ← gets (λ t. t.keys executions_endpoint q.idempotency_key)
  when (is_taken row) (do
    rollback e
    count idempotency_conflict
    log_rejected error_idempotency_conflict q
    raise (api (conflict error_idempotency_conflict "Idempotency-Key is already in use.")))
  write (
      set_key q.idempotency_key (record {
        request_hash = q.req_hash;
        response_payload = none;
        status_code = none;
        completed_at = none;
      }))

-- The main `try` block.
unfoldable pub execute_once : Engine → Request → Action (Payload × Bool)
unfolding guarded lock_quote settle publish
execute_once e q = do
  quote ← guarded e q none (lock_quote e q.quote_id)
  guarded e q (some quote.customer_id) (settle e q quote >>= publish e q quote)

unfoldable pub first_use : Engine → Request → Action (Payload × Bool)
unfolding claim_key execute_once
first_use e q = claim_key e q >> execute_once e q

-- `existing_key.completed_at and existing_key.response_payload`
abbrev pub stored_response : Option ℕ → Option Payload → Option Payload
stored_response (some time) (some payload) = some payload
stored_response _ _ = none

-- What the row of an earlier request under the key leads to.
unfoldable pub replay : Engine → Request → Option Payload → Action (Payload × Bool)
unfolding first_use
replay e q (some payload) = count idempotency_replay >> pure (payload, true)
replay e q none = first_use e q

-- A key stands for one request.
unfoldable pub check_same_request : Request → IdempotencyKey → Action (Unit {0})
unfolding log_rejected
check_same_request q row = when (not (str_eq row.request_hash q.req_hash)) (do
  count idempotency_conflict
  log_rejected error_idempotency_conflict q
  raise (
      api (
        conflict error_idempotency_conflict
          "Idempotency-Key was already used with a different request.")))

unfoldable pub on_existing_key : Engine → Request → Option IdempotencyKey → Action (Payload × Bool)
unfolding replay first_use check_same_request
on_existing_key e q none = first_use e q
on_existing_key e q (some row) = do
  check_same_request q row
  replay e q (stored_response row.completed_at row.response_payload)

unfoldable pub require_key : Request → Action (Unit {0})
unfolding log_rejected
require_key q = when (str_eq q.idempotency_key "") (do
  log_rejected error_idempotency_key_missing q
  raise (api (validation_error "Idempotency-Key is required." none)))

-- The result says whether it is a replay.
unfoldable pub execute_quote : Engine → Request → Action (Payload × Bool)
unfolding require_key on_existing_key
execute_quote e q = do
  require_key q
  existing ← gets (λ t. t.keys executions_endpoint q.idempotency_key)
  on_existing_key e q existing
