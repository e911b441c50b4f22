-- ===== src/Concurrency/Atomic.antt =====
-- A phase that raises has published nothing.
use umba_fx_engine.Prelude.{ℕ, ◌≡◌, refl, Option, none, some}
use umba_fx_engine.Prelude.Int.{ℤ, pos}
use umba_fx_engine.Money.{Currency}
use umba_fx_engine.Errors.{Exception}
use umba_fx_engine.Schema.{Quote, Payload, IdempotencyKey}
use umba_fx_engine.Session.{World, Outcome, returned, raised, Action, pure, resume, ◌>>=◌}
use umba_fx_engine.Session.Backend.{Engine, IsTransactional}
use umba_fx_engine.Session.Laws.{
  KeepsCommitted, keeps_rules, KeepsCommitted-bind, KeepsCommitted-pure, KeepsCommitted-gets,
  KeepsCommitted-now, KeepsCommitted-write,
}
use umba_fx_engine.Session.Atomic.{IsAtomic, IsAtomic-bind, KeepsCommitted-IsAtomic}
use umba_fx_engine.Repositories.Balances.{get_balance_for_update}
use umba_fx_engine.Repositories.Keeps.{KeepsCommitted-ensure_balance}
use umba_fx_engine.Executions.Rejections.{Request}
use umba_fx_engine.Executions.Checks.{set_key}
use umba_fx_engine.Executions.Effects.{completed_key}
use umba_fx_engine.Executions.Atomic.{
  KeepsCommitted-move_money, KeepsCommitted-lock_quote, KeepsCommitted-checks,
  KeepsCommitted-claim_key, KeepsCommitted-guarded, IsAtomic-guarded, IsAtomic-publish,
  KeepsCommitted-check_same_request, KeepsCommitted-require_key,
}
use umba_fx_engine.Concurrency.Phases.{
  Phase, fresh, looked, keyed, quoted, checked, opened, prepared, paying_first, paying_both, over,
  on_stored, on_found, look_up, check_quote, insert_row, of_locked, pay, advance,
}

KeepsCommitted-get_balance_for_update :
    (c : ℕ) (k : Currency) → KeepsCommitted (get_balance_for_update c k)
unfolding get_balance_for_update
KeepsCommitted-get_balance_for_update c k = search keeps_rules

KeepsCommitted-on_stored : (stored : Option Payload) → KeepsCommitted (on_stored stored)
unfolding on_stored
KeepsCommitted-on_stored none = search keeps_rules
KeepsCommitted-on_stored (some p) = search keeps_rules

IsAtomic-then_pure :
    {A B : Type 0} {m : Action A} → IsAtomic m → (f : A → B) → IsAtomic (m >>= λ a. pure (f a))
IsAtomic-then_pure {A} {m} a f = record {
  at = λ w {x} h. after w (m w) (λ y k. a.at w {x = y} k) h;
}
  where
    after :
        (w : World) (p : Outcome A × World)
        → ((y : Exception) → p.0 ≡ raised y → p.1.db.committed ≡ w.db.committed)
        → {x : Exception} → (resume (λ a. pure (f a)) p.0 p.1).0 ≡ raised x
        → (resume (λ a. pure (f a)) p.0 p.1).1.db.committed ≡ w.db.committed
    after w (returned a, v) k h = cc
    after w (raised y, v) k h = k y refl

KeepsCommitted-insert_row : (c : ℕ) (k : Currency) → KeepsCommitted (insert_row c k)
unfolding insert_row
KeepsCommitted-insert_row c k = KeepsCommitted-bind _ _ (KeepsCommitted-gets _) λ absent.
    KeepsCommitted-bind _ _ (KeepsCommitted-ensure_balance c k) λ _. KeepsCommitted-pure absent

module _ {e : Engine} (law : IsTransactional e) (q : Request) where
  KeepsCommitted-on_found : (found : Option IdempotencyKey) → KeepsCommitted (on_found q found)
  unfolding on_found
  KeepsCommitted-on_found none = search keeps_rules
  KeepsCommitted-on_found (some row) =
      KeepsCommitted-bind _ _ (KeepsCommitted-check_same_request law q row)
        λ _. KeepsCommitted-on_stored _

  KeepsCommitted-look_up : KeepsCommitted (look_up q)
  unfolding look_up
  KeepsCommitted-look_up =
      KeepsCommitted-bind _ _ (KeepsCommitted-require_key law q)
        λ _. KeepsCommitted-bind _ _ (KeepsCommitted-gets _) KeepsCommitted-on_found

  KeepsCommitted-check_quote : (quote : Quote) → KeepsCommitted (check_quote e quote)
  unfolding check_quote
  KeepsCommitted-check_quote quote =
      KeepsCommitted-bind _ _ (KeepsCommitted-checks law quote (pos 0)).0
        λ _. (KeepsCommitted-checks law quote (pos 0)).1

  IsAtomic-pay : (quote : Quote) (locked : ℤ × ℤ) → IsAtomic (pay e q quote locked)
  unfolding pay
  IsAtomic-pay quote locked = IsAtomic-bind _ _ (KeepsCommitted-checks law quote locked.0).2 λ _.
      IsAtomic-bind _ _ (KeepsCommitted-move_money e quote locked.0 locked.1) λ p.
        IsAtomic-bind _ _ KeepsCommitted-now λ time.
          IsAtomic-bind _ _
            (KeepsCommitted-write (set_key q.idempotency_key (completed_key q p time)))
            λ _. IsAtomic-publish law q quote p

  pub IsAtomic-advance : (phase : Phase) → IsAtomic (advance e q phase)
  unfolding advance
  IsAtomic-advance fresh = KeepsCommitted-IsAtomic KeepsCommitted-look_up
  IsAtomic-advance looked =
      KeepsCommitted-IsAtomic
        (KeepsCommitted-bind _ _ (KeepsCommitted-claim_key law q) λ _. KeepsCommitted-pure keyed)
  IsAtomic-advance keyed = KeepsCommitted-IsAtomic (
      KeepsCommitted-bind _ _
        (KeepsCommitted-guarded law q none _ (KeepsCommitted-lock_quote law q.quote_id))
        λ quote. KeepsCommitted-pure (quoted quote))
  IsAtomic-advance (quoted quote) = KeepsCommitted-IsAtomic (
      KeepsCommitted-bind _ _
        (KeepsCommitted-guarded law q (some quote.customer_id) _ (KeepsCommitted-check_quote quote))
        λ _. KeepsCommitted-pure (checked quote))
  IsAtomic-advance (checked quote) = KeepsCommitted-IsAtomic (
      KeepsCommitted-bind _ _
        (KeepsCommitted-guarded law q (some quote.customer_id) _ (KeepsCommitted-insert_row _ _))
        λ a. KeepsCommitted-pure (opened quote a))
  IsAtomic-advance (opened quote a) = KeepsCommitted-IsAtomic (
      KeepsCommitted-bind _ _
        (KeepsCommitted-guarded law q (some quote.customer_id) _ (KeepsCommitted-insert_row _ _))
        λ b. KeepsCommitted-pure (prepared quote (a, b)))
  IsAtomic-advance (prepared quote own) = KeepsCommitted-IsAtomic (
      KeepsCommitted-bind _ _
        (KeepsCommitted-guarded law q (some quote.customer_id) _
          (KeepsCommitted-get_balance_for_update _ _))
        λ first. KeepsCommitted-pure (paying_first quote own first))
  IsAtomic-advance (paying_first quote own first) = KeepsCommitted-IsAtomic (
      KeepsCommitted-bind _ _
        (KeepsCommitted-guarded law q (some quote.customer_id) _
          (KeepsCommitted-get_balance_for_update _ _))
        λ second. KeepsCommitted-pure (paying_both quote own first second))
  IsAtomic-advance (paying_both quote own first second) =
      IsAtomic-then_pure
        (IsAtomic-guarded law q (some quote.customer_id) _
          (IsAtomic-pay quote (of_locked quote first second)))
        λ r. over (returned r)
  IsAtomic-advance (over r) = KeepsCommitted-IsAtomic (KeepsCommitted-pure (over r))
