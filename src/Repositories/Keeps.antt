-- ===== src/Repositories/Keeps.antt =====
-- No statement of the repositories publishes anything.
use umba_fx_engine.Prelude.{ℕ, List, [], ◌∷◌}
use umba_fx_engine.Prelude.Int.{ℤ}
use umba_fx_engine.Money.{Currency, currencies, of_cents, round_money}
use umba_fx_engine.Errors.{invalid_operation}
use umba_fx_engine.Schema.{LedgerEntry}
use umba_fx_engine.Session.{or_raise}
use umba_fx_engine.Session.Laws.{
  KeepsCommitted, keeps_rules, KeepsCommitted-bind, KeepsCommitted-pure, KeepsCommitted-or_raise,
  KeepsCommitted-gets,
}
use umba_fx_engine.Repositories.Balances.{
  BalanceTable, ensure_balance, get_balance_for_update, store_balance, ensure_each,
  ensure_all_balances, rounded_balances, list_balances, or_zero,
}
use umba_fx_engine.Repositories.Ledger.{append_entry}

pub KeepsCommitted-append_entry : (x : LedgerEntry) → KeepsCommitted (append_entry x)
unfolding append_entry
KeepsCommitted-append_entry x = search keeps_rules depth 12

pub KeepsCommitted-store_balance :
    (c : ℕ) (k : Currency) (b : ℤ) → KeepsCommitted (store_balance c k b)
unfolding store_balance
KeepsCommitted-store_balance c k b = search keeps_rules depth 12

pub KeepsCommitted-ensure_balance : (c : ℕ) (k : Currency) → KeepsCommitted (ensure_balance c k)
unfolding ensure_balance
KeepsCommitted-ensure_balance c k = search keeps_rules depth 12

pub KeepsCommitted-get_balance_for_update :
    (c : ℕ) (k : Currency) → KeepsCommitted (get_balance_for_update c k)
unfolding get_balance_for_update
KeepsCommitted-get_balance_for_update c k = search keeps_rules depth 12

KeepsCommitted-ensure_each : (c : ℕ) (ks : List Currency) → KeepsCommitted (ensure_each c ks)
unfolding ensure_each
KeepsCommitted-ensure_each c [] = KeepsCommitted-pure tt
KeepsCommitted-ensure_each c (k ∷ ks) =
    KeepsCommitted-bind (ensure_balance c k) _ (KeepsCommitted-ensure_balance c k)
      λ _. KeepsCommitted-ensure_each c ks

pub KeepsCommitted-ensure_all_balances : (c : ℕ) → KeepsCommitted (ensure_all_balances c)
unfolding ensure_all_balances
KeepsCommitted-ensure_all_balances c = KeepsCommitted-ensure_each c currencies

KeepsCommitted-rounded_balances :
    (table : BalanceTable) (c : ℕ) (ks : List Currency)
    → KeepsCommitted (rounded_balances table c ks)
unfolding rounded_balances
KeepsCommitted-rounded_balances table c [] = KeepsCommitted-pure []
KeepsCommitted-rounded_balances table c (k ∷ ks) =
    KeepsCommitted-bind
      (or_raise invalid_operation (round_money (of_cents (or_zero (table c k))) k)) _
      (KeepsCommitted-or_raise _ _)
      λ v.
        KeepsCommitted-bind (rounded_balances table c ks) _
          (KeepsCommitted-rounded_balances table c ks) λ rest. KeepsCommitted-pure _

pub KeepsCommitted-list_balances : (c : ℕ) → KeepsCommitted (list_balances c)
unfolding list_balances
KeepsCommitted-list_balances c =
    KeepsCommitted-bind (ensure_all_balances c) _ (KeepsCommitted-ensure_all_balances c) λ _.
      KeepsCommitted-bind _ _ (KeepsCommitted-gets (λ t. t.balances))
        λ table. KeepsCommitted-rounded_balances table c currencies
