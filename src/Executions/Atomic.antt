-- ===== src/Executions/Atomic.antt =====
-- `execute_quote` publishes everything or nothing.
use umba_fx_engine.Prelude.{ℕ, String, ◌≡◌, refl, ◌∙◌, Option, none, some, arith}
use umba_fx_engine.Prelude.Int.{ℤ, pos}
use umba_fx_engine.Errors.{Exception}
use umba_fx_engine.Schema.{Quote, IdempotencyKey, Payload}
use umba_fx_engine.Session.{World, Outcome, returned, raised, Action, gets}
use umba_fx_engine.Session.Laws.{
  KeepsCommitted, keeps_rules, KeepsCommitted-rollback, KeepsCommitted-bind, KeepsCommitted-gets,
  KeepsCommitted-pure,
}
use umba_fx_engine.Session.Atomic.{IsAtomic, IsAtomic-bind}
use umba_fx_engine.Session.Backend.{Engine, IsTransactional}
use umba_fx_engine.Repositories.Keeps.{KeepsCommitted-append_entry, KeepsCommitted-store_balance}
use umba_fx_engine.Executions.{
  claim_key, execute_once, first_use, stored_response, replay, check_same_request, on_existing_key,
  require_key, execute_quote,
}
use umba_fx_engine.Executions.Rejections.{Request, log_rejected, on_failure, handle, guarded}
use umba_fx_engine.Executions.Checks.{
  executions_endpoint, reject, require_quote, lock_quote, check_unexecuted, check_expiry,
  check_funds, lock_balances, insert_execution,
}
use umba_fx_engine.Executions.Movement.{after_debit_hook, move_money, settle, publish}

KeepsCommitted-after_debit_hook : (e : Engine) → KeepsCommitted (after_debit_hook e)
unfolding after_debit_hook
KeepsCommitted-after_debit_hook e = record { at = λ w. ground arith }

KeepsCommitted-insert_execution : (quote : Quote) → KeepsCommitted (insert_execution quote)
unfolding insert_execution
KeepsCommitted-insert_execution quote = search keeps_rules depth 12

ruleset movement_rules = (
  keeps_rules, KeepsCommitted-append_entry, KeepsCommitted-store_balance,
  KeepsCommitted-after_debit_hook, KeepsCommitted-insert_execution,
)

pub KeepsCommitted-move_money :
    (e : Engine) (quote : Quote) (s d : ℤ) → KeepsCommitted (move_money e quote s d)
unfolding move_money
KeepsCommitted-move_money e quote s d = search movement_rules depth 20

module _ {e : Engine} (law : IsTransactional e) where
  KeepsCommitted-reject : {A : Type 0} (x : Exception) → KeepsCommitted (reject {A = A} e x)
  KeepsCommitted-reject x = search (keeps_rules, KeepsCommitted-rollback law)

  pub KeepsCommitted-lock_quote : (id : ℕ) → KeepsCommitted (lock_quote e id)
  unfolding lock_quote
  KeepsCommitted-lock_quote id =
      KeepsCommitted-bind _ _ (KeepsCommitted-gets _) λ found. required found
    where
      required : (found : Option Quote) → KeepsCommitted (require_quote e id found)
      required none = KeepsCommitted-reject _
      required (some quote) = KeepsCommitted-pure quote

  pub KeepsCommitted-checks :
      (quote : Quote) (funds : ℤ)
      → KeepsCommitted (check_unexecuted e quote)
        × KeepsCommitted (check_expiry e quote)
        × KeepsCommitted (check_funds e quote funds)
  unfolding check_unexecuted check_expiry check_funds
  KeepsCommitted-checks quote funds = (
    record { at = λ w. ground (arith, law.rollback_lem w.db) },
    record { at = λ w. ground (arith, law.rollback_lem w.db) },
    record { at = λ w. ground (arith, law.rollback_lem w.db) },
  )

  KeepsCommitted-lock_balances : (quote : Quote) → KeepsCommitted (lock_balances quote)
  unfolding lock_balances
  KeepsCommitted-lock_balances quote = search keeps_rules depth 20

  KeepsCommitted-settle : (q : Request) (quote : Quote) → KeepsCommitted (settle e q quote)
  unfolding settle
  KeepsCommitted-settle q quote =
      KeepsCommitted-bind _ _ (KeepsCommitted-checks quote (pos 0)).0 λ _.
        KeepsCommitted-bind _ _ (KeepsCommitted-checks quote (pos 0)).1 λ _.
          KeepsCommitted-bind _ _ (KeepsCommitted-lock_balances quote) λ locked.
            KeepsCommitted-bind _ _ (KeepsCommitted-checks quote locked.0).2 λ _.
              KeepsCommitted-bind _ _ (KeepsCommitted-move_money e quote locked.0 locked.1)
                λ p. search keeps_rules depth 12

  pub KeepsCommitted-claim_key : (q : Request) → KeepsCommitted (claim_key e q)
  unfolding claim_key
  KeepsCommitted-claim_key q = record { at = λ w. ground (arith, law.rollback_lem w.db) }

module _ {e : Engine} (law : IsTransactional e) where
  KeepsCommitted-log_rejected : (code : String) (q : Request) → KeepsCommitted (log_rejected code q)
  unfolding log_rejected
  KeepsCommitted-log_rejected code q = record { at = λ w. refl }

  KeepsCommitted-on_failure :
      {A : Type 0} (q : Request) (c : Option ℕ) (x : Exception)
      → KeepsCommitted (on_failure {A = A} e q c x)
  unfolding on_failure
  KeepsCommitted-on_failure q c x = record { at = λ w. ground (arith, law.rollback_lem w.db) }

  pub KeepsCommitted-guarded :
      {A : Type 0} (q : Request) (c : Option ℕ) (m : Action A)
      → KeepsCommitted m
      → KeepsCommitted (guarded e q c m)
  unfolding guarded
  KeepsCommitted-guarded {A} q c m k = record { at = λ w. after (m w) ∙ k.at w }
    where
      after :
          (p : Outcome A × World)
          → (handle (on_failure e q c) p.0 p.1).1.db.committed ≡ p.1.db.committed
      after (returned a, v) = refl
      after (raised x, v) = (KeepsCommitted-on_failure {A = A} q c x).at v

  pub IsAtomic-guarded :
      {A : Type 0} (q : Request) (c : Option ℕ) (m : Action A)
      → IsAtomic m
      → IsAtomic (guarded e q c m)
  unfolding guarded
  IsAtomic-guarded {A} q c m a = record {
    at = λ w {x} h. after w (m w) (λ y k. a.at w {x = y} k) x h;
  }
    where
      after :
          (w : World) (p : Outcome A × World)
          → ((y : Exception) → p.0 ≡ raised y → p.1.db.committed ≡ w.db.committed)
          → (x : Exception) → (handle (on_failure e q c) p.0 p.1).0 ≡ raised x
          → (handle (on_failure e q c) p.0 p.1).1.db.committed ≡ w.db.committed
      after w (returned a, v) k x h = cc
      after w (raised y, v) k x h = (KeepsCommitted-on_failure {A = A} q c y).at v ∙ k y refl

  pub IsAtomic-publish :
      (q : Request) (quote : Quote) (p : Payload) → IsAtomic (publish e q quote p)
  unfolding publish
  IsAtomic-publish q quote p = record { at = λ w h. cc }

  IsAtomic-execute_once : (q : Request) → IsAtomic (execute_once e q)
  unfolding execute_once
  IsAtomic-execute_once q =
      IsAtomic-bind (guarded e q none (lock_quote e q.quote_id)) _
        (KeepsCommitted-guarded q none _ (KeepsCommitted-lock_quote law q.quote_id))
        λ quote.
          IsAtomic-guarded q (some quote.customer_id) _
            (IsAtomic-bind _ _ (KeepsCommitted-settle law q quote) (IsAtomic-publish q quote))

  IsAtomic-first_use : (q : Request) → IsAtomic (first_use e q)
  unfolding first_use
  IsAtomic-first_use q =
      IsAtomic-bind (claim_key e q) _ (KeepsCommitted-claim_key law q) λ _. IsAtomic-execute_once q

  IsAtomic-replay : (q : Request) (stored : Option Payload) → IsAtomic (replay e q stored)
  unfolding replay
  IsAtomic-replay q none = IsAtomic-first_use q
  IsAtomic-replay q (some p) = record { at = λ w h. cc }

  pub KeepsCommitted-check_same_request :
      (q : Request) (row : IdempotencyKey) → KeepsCommitted (check_same_request q row)
  unfolding check_same_request
  KeepsCommitted-check_same_request q row = record { at = λ w. ground arith }

  pub KeepsCommitted-require_key : (q : Request) → KeepsCommitted (require_key q)
  unfolding require_key
  KeepsCommitted-require_key q = record { at = λ w. ground arith }

  IsAtomic-on_existing_key :
      (q : Request) (row : Option IdempotencyKey) → IsAtomic (on_existing_key e q row)
  unfolding on_existing_key
  IsAtomic-on_existing_key q none = IsAtomic-first_use q
  IsAtomic-on_existing_key q (some row) =
      IsAtomic-bind (check_same_request q row) _ (KeepsCommitted-check_same_request q row)
        λ _. IsAtomic-replay q (stored_response row.completed_at row.response_payload)

  -- When a call of `execute_quote` raises, whatever the error, nothing of it is committed.
  pub execute_quote-atomic :
      (q : Request) (w : World) {x : Exception}
      → (execute_quote e q w).0 ≡ raised x
      → (execute_quote e q w).1.db.committed ≡ w.db.committed
  unfolding execute_quote
  execute_quote-atomic q =
      (IsAtomic-bind (require_key q) _ (KeepsCommitted-require_key q) λ _.
        IsAtomic-bind (gets (λ t. t.keys executions_endpoint q.idempotency_key)) _
          (KeepsCommitted-gets (λ t. t.keys executions_endpoint q.idempotency_key))
          λ row. IsAtomic-on_existing_key q row).at
