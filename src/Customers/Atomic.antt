-- ===== src/Customers/Atomic.antt =====
-- The calls of app/services/customers.py publish everything or nothing.
use umba_fx_engine.Prelude.{ℕ, ◌≡◌, ◌∷◌}
use umba_fx_engine.Prelude.Int.{ℤ}
use umba_fx_engine.Money.{Currency, of_cents, round_money}
use umba_fx_engine.Money.Arithmetic.{Decimal, add}
use umba_fx_engine.Errors.{Exception, invalid_operation}
use umba_fx_engine.Session.{World, raised, ◌>>◌, or_raise, commit, pure, uuid4, write}
use umba_fx_engine.Session.Laws.{
  KeepsCommitted, keeps_rules, KeepsCommitted-bind, KeepsCommitted-or_raise, KeepsCommitted-uuid4,
  KeepsCommitted-write,
}
use umba_fx_engine.Session.Atomic.{IsAtomic, IsAtomic-bind}
use umba_fx_engine.Session.Backend.{Engine}
use umba_fx_engine.Repositories.Balances.{
  ensure_balance, ensure_all_balances, get_balance_for_update, store_balance,
}
use umba_fx_engine.Repositories.Ledger.{append_entry}
use umba_fx_engine.Repositories.Keeps.{
  KeepsCommitted-append_entry, KeepsCommitted-store_balance, KeepsCommitted-ensure_balance,
  KeepsCommitted-get_balance_for_update, KeepsCommitted-ensure_all_balances,
  KeepsCommitted-list_balances,
}
use umba_fx_engine.Customers.{
  create_customer, assert_customer_exists, get_balances, insert_adjustment, credit_entry,
  credit_balance,
}

pub KeepsCommitted-assert_customer_exists :
    (e : Engine) (c : ℕ) → KeepsCommitted (assert_customer_exists e c)
unfolding assert_customer_exists
KeepsCommitted-assert_customer_exists e c = search keeps_rules depth 12

KeepsCommitted-insert_adjustment :
    (c : ℕ) (k : Currency) (amount : ℤ) → KeepsCommitted (insert_adjustment c k amount)
unfolding insert_adjustment
KeepsCommitted-insert_adjustment c k amount = search keeps_rules depth 12

-- The end of an action: the commit, and a result.
pub IsAtomic-commit : {A : Type 0} (e : Engine) (a : A) → IsAtomic (commit e >> pure a)
IsAtomic-commit e a = record { at = λ w h. cc }

-- Reading the balances publishes nothing, not even the rows that it makes.
pub KeepsCommitted-get_balances : (e : Engine) (c : ℕ) → KeepsCommitted (get_balances e c)
unfolding get_balances
KeepsCommitted-get_balances e c =
    KeepsCommitted-bind (assert_customer_exists e c) _ (KeepsCommitted-assert_customer_exists e c)
      λ _. KeepsCommitted-list_balances c

pub IsAtomic-create_customer : (e : Engine) → IsAtomic (create_customer e)
unfolding create_customer
IsAtomic-create_customer e = IsAtomic-bind uuid4 _ KeepsCommitted-uuid4 λ id.
    IsAtomic-bind (write (λ t. record t { customers = id ∷ t.customers })) _
      (KeepsCommitted-write _)
      λ _.
        IsAtomic-bind (ensure_all_balances id) _ (KeepsCommitted-ensure_all_balances id)
          λ _. IsAtomic-commit e id

pub credit_balance-IsAtomic :
    (e : Engine) (c : ℕ) (k : Currency) (amount : Decimal) → IsAtomic (credit_balance e c k amount)
unfolding credit_balance
credit_balance-IsAtomic e c k amount =
    IsAtomic-bind (assert_customer_exists e c) _ (KeepsCommitted-assert_customer_exists e c) λ _.
      IsAtomic-bind (or_raise invalid_operation (round_money amount k)) _
        (KeepsCommitted-or_raise _ _)
        λ rounded. IsAtomic-bind (ensure_balance c k) _ (KeepsCommitted-ensure_balance c k) λ _.
          IsAtomic-bind (get_balance_for_update c k) _ (KeepsCommitted-get_balance_for_update c k)
            λ b.
              IsAtomic-bind (insert_adjustment c k rounded) _
                (KeepsCommitted-insert_adjustment c k rounded)
                λ adjustment.
                  IsAtomic-bind (append_entry (credit_entry adjustment)) _
                    (KeepsCommitted-append_entry _)
                    λ _.
                      IsAtomic-bind
                        (or_raise invalid_operation
                          (round_money (add (of_cents b) (of_cents rounded)) k))
                        _ (KeepsCommitted-or_raise _ _)
                        λ sum.
                          IsAtomic-bind (store_balance c k sum) _
                            (KeepsCommitted-store_balance c k sum) λ _. IsAtomic-commit e sum

-- When `credit_balance` raises, whatever the exception, nothing of it is committed.
pub credit_balance-atomic :
    (e : Engine) (c : ℕ) (k : Currency) (amount : Decimal) (w : World) {x : Exception}
    → (credit_balance e c k amount w).0 ≡ raised x
    → (credit_balance e c k amount w).1.db.committed ≡ w.db.committed
credit_balance-atomic e c k amount w h = (credit_balance-IsAtomic e c k amount).at w h
