-- ===== src/Customers.antt =====
-- app/services/customers.py: customers, their balances, and the credit that test set-ups use.
pub mod Laws
pub mod Atomic
pub mod Created
use Prim.Native.String.{◌++◌ as ◌<>◌}
use umba_fx_engine.Prelude.{ℕ, String, Bool, not, ◌||◌, List, [], ◌∷◌, any, ◌==◌}
use umba_fx_engine.Prelude.Int.{ℤ}
use umba_fx_engine.Money.{Currency, of_cents, round_money}
use umba_fx_engine.Money.Arithmetic.{Decimal, add}
use umba_fx_engine.Errors.{api, not_found, data_error, invalid_operation}
use umba_fx_engine.Schema.{CreditAdjustment, LedgerEntry, credit, ref_credit_adjustment}
use umba_fx_engine.Schema.Columns.{numeric_fits}
use umba_fx_engine.Session.{
  Action, ◌>>=◌, ◌>>◌, pure, raise, gets, or_raise, write, raise_if, when, uuid4, commit,
}
use umba_fx_engine.Session.Backend.{Engine}
use umba_fx_engine.Repositories.Balances.{
  ensure_balance, ensure_all_balances, get_balance_for_update, store_balance, list_balances,
}
use umba_fx_engine.Repositories.Ledger.{append_entry}

unfoldable pub create_customer : Engine → Action ℕ
create_customer e = do
  id ← uuid4
  write (λ t. record t { customers = id ∷ t.customers })
  ensure_all_balances id
  commit e
  pure id

abbrev pub is_customer : ℕ → List ℕ → Bool
is_customer id = any (λ x. x == id)

unfoldable pub assert_customer_exists : Engine → ℕ → Action (Unit {0})
assert_customer_exists e id = do
  known ← gets (λ t. is_customer id t.customers)
  raise_if (not known)
      (api (not_found "customer_not_found" ("Customer " <> e.str_uuid id <> " not found.")))

unfoldable pub get_balances : Engine → ℕ → Action (List (Currency × ℤ))
get_balances e id = assert_customer_exists e id >> list_balances id

-- The row of `credit_adjustments`, with the default reason and source.
unfoldable pub insert_adjustment : ℕ → Currency → ℤ → Action CreditAdjustment
insert_adjustment customer k amount = do
  id ← uuid4
  raise_if (not (numeric_fits amount)) data_error
  let adjustment : CreditAdjustment = record {
    id = id;
    customer_id = customer;
    currency = k;
    amount = amount;
    reason = "manual_credit";
    source = "test_fixture";
  }
  write (λ t. record t { adjustments = adjustment ∷ t.adjustments })
  pure adjustment

abbrev pub credit_entry : CreditAdjustment → LedgerEntry
credit_entry adjustment = record {
  customer_id = adjustment.customer_id;
  currency = adjustment.currency;
  amount = adjustment.amount;
  direction = credit;
  reference_type = ref_credit_adjustment;
  reference_id = adjustment.id;
}

-- The new balance is flushed by the commit, and returned.
unfoldable pub credit_balance : Engine → ℕ → Currency → Decimal → Action ℤ
credit_balance e customer k amount = do
  assert_customer_exists e customer
  rounded ← or_raise invalid_operation (round_money amount k)
  ensure_balance customer k
  balance ← get_balance_for_update customer k
  adjustment ← insert_adjustment customer k rounded
  append_entry (credit_entry adjustment)
  new_balance ←
      or_raise invalid_operation (round_money (add (of_cents balance) (of_cents rounded)) k)
  store_balance customer k new_balance
  commit e
  pure new_balance
