-- ===== src/Repositories/Ledger/Totals.antt =====
-- The ledger as the source of truth: what it says that a customer owns.
use umba_fx_engine.Prelude.{
  ℕ, ◌^◌, ◌<◌, ◌≡◌, refl, ◌∙◌, subst, List, [], ◌∷◌, arith, ◌==◌, ◌&&◌, if◌then◌else◌,
}
use umba_fx_engine.Prelude.Int.{ℤ, pos, magnitude, ◌+ℤ◌, ◌-ℤ◌, int_laws}
use umba_fx_engine.Money.{Currency, same}
use umba_fx_engine.Money.Rounding.{round_money-sub}
use umba_fx_engine.Schema.{Tables, Direction, LedgerEntry, debit, credit}
use umba_fx_engine.Session.{World, returned}
use umba_fx_engine.Repositories.Balances.{is_row}
use umba_fx_engine.Repositories.Balances.Laws.{cash}
use umba_fx_engine.Repositories.Ledger.{sum_entries, compute_balance}

-- Credits less debits.
abbrev pub net : List LedgerEntry → ℕ → Currency → ℤ
net entries c k = sum_entries c k credit entries -ℤ sum_entries c k debit entries

-- The balance cache agrees with the ledger, for every customer and currency.
abbrev pub IsReconciled : Tables → Type 0
IsReconciled t = (c : ℕ) (k : Currency) → cash t.balances c k ≡ net t.entries c k

add_sub_right : (a x b : ℤ) → (x +ℤ a) -ℤ b ≡ (a -ℤ b) +ℤ x
add_sub_right a x b = omega int_laws

sub_add_right : (a x b : ℤ) → a -ℤ (x +ℤ b) ≡ (a -ℤ b) -ℤ x
sub_add_right a x b = omega int_laws

pub net-credit :
    (x : LedgerEntry) (xs : List LedgerEntry) (c : ℕ) (k : Currency)
    → x.direction ≡ credit
    → net (x ∷ xs) c k
      ≡ (if is_row x.customer_id x.currency c k then net xs c k +ℤ x.amount else net xs c k)
unfolding sum_entries
net-credit x xs c k h =
    ground (arith, add_sub_right (sum_entries c k credit xs) x.amount (sum_entries c k debit xs))

pub net-debit :
    (x : LedgerEntry) (xs : List LedgerEntry) (c : ℕ) (k : Currency)
    → x.direction ≡ debit
    → net (x ∷ xs) c k
      ≡ (if is_row x.customer_id x.currency c k then net xs c k -ℤ x.amount else net xs c k)
unfolding sum_entries
net-debit x xs c k h =
    ground (arith, sub_add_right (sum_entries c k credit xs) x.amount (sum_entries c k debit xs))

-- A balance after an entry of the account.
abbrev after_entry : Direction → ℤ → ℤ → ℤ
after_entry credit balance amount = balance +ℤ amount
after_entry debit balance amount = balance -ℤ amount

-- What the entries leave on the account of a customer in a currency: those of that customer in that
-- currency add their amount or take it away, one after the other, and the others leave it as it is.
unfoldable pub posted : List LedgerEntry → ℕ → Currency → ℤ
posted [] c k = pos 0
posted (x ∷ xs) c k =
    let rest = posted xs c k in
    if c == x.customer_id && same k x.currency then after_entry x.direction rest x.amount else rest

net-posted :
    (entries : List LedgerEntry) (c : ℕ) (k : Currency) → net entries c k ≡ posted entries c k
unfolding posted sum_entries
net-posted [] c k = omega int_laws
net-posted (x ∷ xs) c k = posts (net-posted xs c k) x.direction refl
  where
    posts :
        net xs c k ≡ posted xs c k
        → (d : Direction) → x.direction ≡ d
        → net (x ∷ xs) c k ≡ posted (x ∷ xs) c k
    posts rest credit h = net-credit x xs c k h ∙ rw (h, rest) refl
    posts rest debit h = net-debit x xs c k h ∙ rw (h, rest) refl

compute_balance-net :
    (c : ℕ) (k : Currency) (w : World)
    → magnitude (sum_entries c k credit w.db.work.entries) < 10 ^ 27
    → magnitude (sum_entries c k debit w.db.work.entries) < 10 ^ 27
    → compute_balance c k w ≡ (returned (net w.db.work.entries c k), w)
unfolding compute_balance
compute_balance-net c k w h i = rw (round_money-sub _ _ k h i) refl

-- `compute_balance` gives what the entries of the ledger leave on the customer's account in the currency
-- when they are posted one after the other, and changes nothing, as long as the sum of the account's
-- credits and the sum of its debits both stay below 10 ^ 27 cents.
pub compute_balance-posted :
    (c : ℕ) (k : Currency) (w : World)
    → magnitude (sum_entries c k credit w.db.work.entries) < 10 ^ 27
    → magnitude (sum_entries c k debit w.db.work.entries) < 10 ^ 27
    → compute_balance c k w ≡ (returned (posted w.db.work.entries c k), w)
compute_balance-posted c k w h i =
    subst (λ b. compute_balance c k w ≡ (returned b, w)) (net-posted w.db.work.entries c k)
      (compute_balance-net c k w h i)
