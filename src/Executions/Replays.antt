-- ===== src/Executions/Replays.antt =====
-- What a call that reports a replay leaves in the tables.
use umba_fx_engine.Prelude.{
  ◌≡◌, sym, ap, Bool, Bool-cases, inl, inr, str_eq, true, false, Option, none, some, arith, refl,
}
use umba_fx_engine.Schema.{Tables, IdempotencyKey, Payload}
use umba_fx_engine.Session.{World, returned}
use umba_fx_engine.Session.Laws.{bind-returned_elim, returned-injective}
use umba_fx_engine.Session.Backend.{Engine, IsTransactional}
use umba_fx_engine.Repositories.Balances.Range.{InRange}
use umba_fx_engine.Executions.Checks.{executions_endpoint}
use umba_fx_engine.Executions.Rejections.{Request}
use umba_fx_engine.Executions.Correct.{
  require_key-returned, check_same_request-returned, first_use-Transfer,
}
use umba_fx_engine.Executions.{
  stored_response, first_use, replay, check_same_request, on_existing_key, require_key,
  execute_quote,
}

-- `IsReplay q before p`: the key of the request was used before, with the same request, and `p` is the
-- response that its row keeps.
pub record IsReplay (q : Request) (before : Tables) (p : Payload) : Type 0 where
  pub row : IdempotencyKey
  pub found : before.keys executions_endpoint q.idempotency_key ≡ some row
  pub same_request : str_eq row.request_hash q.req_hash ≡ true
  pub response : stored_response row.completed_at row.response_payload ≡ some p

pub check_same_request_passes :
    (q : Request) (row : IdempotencyKey) (w : World) {a : Unit {0}} {v : World}
    → check_same_request q row w ≡ (returned a, v)
    → str_eq row.request_hash q.req_hash ≡ true
unfolding check_same_request
check_same_request_passes q row w h = elim (Bool-cases (str_eq row.request_hash q.req_hash)) [
  | inl same ↦ same
  | inr differs ↦ ground arith
]

pub require_key_passes :
    (q : Request) (w : World) {a : Unit {0}} {v : World}
    → require_key q w ≡ (returned a, v)
    → str_eq q.idempotency_key "" ≡ false
unfolding require_key
require_key_passes q w h = elim (Bool-cases (str_eq q.idempotency_key "")) [
  | inl empty ↦ ground arith
  | inr full ↦ full
]

-- Only a request with a key is answered.
pub execute_quote-nonempty :
    (e : Engine) (q : Request) (w : World) {r : Payload × Bool} {v : World}
    → execute_quote e q w ≡ (returned r, v)
    → str_eq q.idempotency_key "" ≡ false
unfolding execute_quote
execute_quote-nonempty e q w h =
    bind-returned_elim (require_key q) _ w h λ _ v1 h1 r1. require_key_passes q w h1

module _ {e : Engine} (law : IsTransactional e) where
  first_use-no_replay :
      {C : Type 0} (q : Request) (w : World) {p : Payload} {v : World}
      → first_use e q w ≡ (returned (p, true), v)
      → InRange w.db.work.balances
      → C
  first_use-no_replay q w h range = let (fresh, _) = first_use-Transfer law q w h range in cc

  replay-stored :
      (q : Request) (stored : Option Payload) (w : World) {p : Payload} {v : World}
      → replay e q stored w ≡ (returned (p, true), v)
      → InRange w.db.work.balances
      → (stored ≡ some p) × (v.db ≡ w.db)
  unfolding replay
  replay-stored q none w h range = first_use-no_replay q w h range
  replay-stored q (some old) w h range =
      (ap (λ r. some r.0) (returned-injective (ap (λ r. r.0) h)), sym (ap (λ r. r.1.db) h))

  on_existing_key-IsReplay :
      (q : Request) (found : Option IdempotencyKey) (w : World) {p : Payload} {v : World}
      → w.db.work.keys executions_endpoint q.idempotency_key ≡ found
      → on_existing_key e q found w ≡ (returned (p, true), v)
      → InRange w.db.work.balances
      → IsReplay q w.db.work p × (v.db ≡ w.db)
  unfolding on_existing_key
  on_existing_key-IsReplay q none w eq h range = first_use-no_replay q w h range
  on_existing_key-IsReplay q (some row) w eq h range =
      bind-returned_elim (check_same_request q row) _ w h λ _ v1 h1 r1.
        let (response, same) =
          replay-stored q (stored_response row.completed_at row.response_payload) w
            (rw (check_same_request-returned q row w h1) at r1) range in
        (
          record {
            row = row;
            found = eq;
            same_request = check_same_request_passes q row w h1;
            response = response;
          },
          same,
        )

  -- A call that reports a replay answers with the response kept for the same request, and changes no table.
  pub execute_quote-IsReplay :
      (q : Request) (w : World) {p : Payload} {v : World}
      → execute_quote e q w ≡ (returned (p, true), v)
      → InRange w.db.work.balances
      → IsReplay q w.db.work p × (v.db ≡ w.db)
  unfolding execute_quote
  execute_quote-IsReplay q w h range = bind-returned_elim (require_key q) _ w h λ _ v1 h1 r1.
      on_existing_key-IsReplay q (w.db.work.keys executions_endpoint q.idempotency_key) w refl
        (rw (require_key-returned q w h1) at r1) range
