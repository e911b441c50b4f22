-- ===== src/Repositories/Balances.antt =====
-- app/repositories/balances.py: one row for each customer and currency.
pub mod Laws
pub mod Range
use umba_fx_engine.Prelude.{
  ℕ, Bool, not, ◌&&◌, Option, none, some, List, [], ◌∷◌, ◌==◌, if◌then◌else◌,
}
use umba_fx_engine.Prelude.Int.{ℤ, pos, ltb_ℤ}
use umba_fx_engine.Money.{Currency, currencies, same, of_cents, round_money}
use umba_fx_engine.Errors.{
  integrity_error, data_error, runtime_error, no_result_found, invalid_operation,
}
use umba_fx_engine.Schema.Columns.{numeric_fits}
use umba_fx_engine.Session.{Action, ◌>>=◌, ◌>>◌, pure, gets, or_raise, write, raise_if}

abbrev pub BalanceTable : Type 0
BalanceTable = ℕ → Currency → Option ℤ

abbrev pub is_row : ℕ → Currency → ℕ → Currency → Bool
is_row c k c' k' = c' == c && same k' k

abbrev pub put : ℕ → Currency → ℤ → BalanceTable → BalanceTable
put c k v table c' k' = if is_row c k c' k' then some v else table c' k'

-- `INSERT … ON CONFLICT DO NOTHING` of a row with `ZERO_MONEY`.
abbrev pub insert_zero : ℕ → Currency → BalanceTable → BalanceTable
insert_zero c k table = elim (table c k) [ none ↦ put c k (pos 0) table | some v ↦ table ]

unfoldable pub get_balance : ℕ → Currency → Action (Option ℤ)
get_balance c k = gets (λ t. t.balances c k)

unfoldable pub ensure_balance : ℕ → Currency → Action ℤ
unfolding get_balance
ensure_balance c k = do
  write (λ t. record t { balances = insert_zero c k t.balances })
  balance ← get_balance c k
  or_raise runtime_error balance

unfoldable pub ensure_each : ℕ → List Currency → Action (Unit {0})
unfolding ensure_balance
ensure_each c [] = pure tt
ensure_each c (k ∷ ks) = ensure_balance c k >> ensure_each c ks

unfoldable pub ensure_all_balances : ℕ → Action (Unit {0})
unfolding ensure_each
ensure_all_balances c = ensure_each c currencies

-- The row lock is held to the end of the transaction; `scalar_one` raises without a row.
unfoldable pub get_balance_for_update : ℕ → Currency → Action ℤ
get_balance_for_update c k = do or_raise no_result_found (← gets (λ t. t.balances c k))

-- The flush of `balance.balance = v`: the column's range, then `CHECK (balance >= 0)`.
unfoldable pub store_balance : ℕ → Currency → ℤ → Action (Unit {0})
store_balance c k v = do
  raise_if (not (numeric_fits v)) data_error
  raise_if (ltb_ℤ v (pos 0)) integrity_error
  write (λ t. record t { balances = put c k v t.balances })

abbrev pub or_zero : Option ℤ → ℤ
or_zero none = pos 0
or_zero (some v) = v

unfoldable pub rounded_balances : BalanceTable → ℕ → List Currency → Action (List (Currency × ℤ))
unfolding round_money
rounded_balances table c [] = pure []
rounded_balances table c (k ∷ ks) = do
  v ← or_raise invalid_operation (round_money (of_cents (or_zero (table c k))) k)
  rest ← rounded_balances table c ks
  pure ((k, v) ∷ rest)

unfoldable pub list_balances : ℕ → Action (List (Currency × ℤ))
unfolding ensure_all_balances rounded_balances
list_balances c = do
  ensure_all_balances c
  table ← gets (λ t. t.balances)
  rounded_balances table c currencies
