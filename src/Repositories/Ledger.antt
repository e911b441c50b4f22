-- ===== src/Repositories/Ledger.antt =====
-- app/repositories/ledger.py: the append-only record of every money movement.
pub mod Laws
pub mod Totals
use umba_fx_engine.Prelude.{
  ℕ, Bool, true, false, not, ◌&&◌, List, [], ◌∷◌, any, ◌==◌, if◌then◌else◌,
}
use umba_fx_engine.Prelude.Int.{ℤ, pos, ◌+ℤ◌, leb_ℤ}
use umba_fx_engine.Money.{Currency, same, of_cents, round_money}
use umba_fx_engine.Money.Arithmetic.{sub}
use umba_fx_engine.Errors.{integrity_error, data_error, value_error, invalid_operation}
use umba_fx_engine.Schema.{
  LedgerEntry, Direction, debit, credit, Reference, ref_execution, ref_credit_adjustment,
}
use umba_fx_engine.Schema.Columns.{numeric_fits}
use umba_fx_engine.Session.{Action, ◌>>=◌, ◌>>◌, pure, gets, or_raise, write, raise_if}

abbrev pub same_direction : Direction → Direction → Bool
same_direction debit debit = true
same_direction credit credit = true
same_direction _ _ = false

abbrev pub same_reference : Reference → Reference → Bool
same_reference ref_execution ref_execution = true
same_reference ref_credit_adjustment ref_credit_adjustment = true
same_reference _ _ = false

-- `uq_ledger_entries_reference_direction`
abbrev pub conflicts : LedgerEntry → LedgerEntry → Bool
conflicts a b =
    same_reference a.reference_type b.reference_type
    && a.reference_id == b.reference_id
    && same_direction a.direction b.direction

-- A `Direction` is one of the two that `append_entry` admits. The flush checks the column's range and
-- the unique constraint; `CHECK (amount > 0)` repeats the test above it.
unfoldable pub append_entry : LedgerEntry → Action LedgerEntry
append_entry entry = do
  raise_if (leb_ℤ entry.amount (pos 0)) value_error
  raise_if (not (numeric_fits entry.amount)) data_error
  taken ← gets (λ t. any (conflicts entry) t.entries)
  raise_if taken integrity_error
  write (λ t. record t { entries = entry ∷ t.entries })
  pure entry

abbrev pub is_entry_of : ℕ → Currency → Direction → LedgerEntry → Bool
is_entry_of c k d entry =
    entry.customer_id == c && same entry.currency k && same_direction entry.direction d

-- `SELECT coalesce(sum(amount), 0.00) … WHERE customer_id = c AND currency = k AND direction = d`
unfoldable pub sum_entries : ℕ → Currency → Direction → List LedgerEntry → ℤ
sum_entries c k d [] = pos 0
sum_entries c k d (x ∷ xs) =
    if is_entry_of c k d x then x.amount +ℤ sum_entries c k d xs else sum_entries c k d xs

unfoldable pub compute_balance : ℕ → Currency → Action ℤ
unfolding sum_entries round_money
compute_balance c k = do
  credits ← gets (λ t. sum_entries c k credit t.entries)
  debits ← gets (λ t. sum_entries c k debit t.entries)
  or_raise invalid_operation (round_money (sub (of_cents credits) (of_cents debits)) k)
