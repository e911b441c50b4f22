-- ===== src/Repositories/Balances/Laws.antt =====
-- What the statements of app/repositories/balances.py do to the table.
use umba_fx_engine.Prelude.{
  ℕ, ◌≡◌, refl, true, none, some, inl, inr, arith, Option-cases, Bool-cases, if◌then◌else◌,
}
use umba_fx_engine.Prelude.Int.{ℤ, pos, ◌≤ℤ◌}
use umba_fx_engine.Money.{Currency, rank, same}
use umba_fx_engine.Schema.Columns.{numeric_fits}
use umba_fx_engine.Session.{World, returned}
use umba_fx_engine.Repositories.Balances.{
  BalanceTable, is_row, put, insert_zero, or_zero, ensure_balance, get_balance_for_update,
  store_balance,
}

abbrev pub with_balances : BalanceTable → World → World
with_balances table w = record w {
  db = record w.db { work = record w.db.work { balances = table } };
}

-- The balance of a customer in a currency, a missing row counting as zero.
abbrev pub cash : BalanceTable → ℕ → Currency → ℤ
cash table c k = or_zero (table c k)

rank_injective : (a b : Currency) → rank a ≡ rank b → a ≡ b
rank_injective a b h = ground arith

pub is_row_iff :
    (c : ℕ) (k : Currency) (c' : ℕ) (k' : Currency) → is_row c k c' k' ≡ true → (c' ≡ c) × (k' ≡ k)
is_row_iff c k c' k' h = ground (arith, rank_injective k' k)

pub same_eq : (a b : Currency) → same a b ≡ true → a ≡ b
same_eq a b h = rank_injective a b (ground arith)

pub same_comm : (a b : Currency) → same a b ≡ same b a
same_comm a b = ground arith

pub is_row_owner : (c : ℕ) (k k' : Currency) → is_row c k c k' ≡ same k' k
is_row_owner c k k' = ground arith

is_row_self : (c : ℕ) (k : Currency) → is_row c k c k ≡ true
is_row_self c k = ground arith

pub cash-put :
    (c : ℕ) (k : Currency) (b : ℤ) (table : BalanceTable) (c' : ℕ) (k' : Currency)
    → cash (put c k b table) c' k' ≡ (if is_row c k c' k' then b else cash table c' k')
cash-put c k b table c' k' = ground arith

pub cash-insert_zero :
    (c : ℕ) (k : Currency) (table : BalanceTable) (c' : ℕ) (k' : Currency)
    → cash (insert_zero c k table) c' k' ≡ cash table c' k'
cash-insert_zero c k table c' k' = elim (Option-cases (table c k)) [
  | inr (b, e) ↦ rw (e, insert_zero) refl
  | inl e ↦
      rw (e, insert_zero)
        (elim (Bool-cases (is_row c k c' k')) [
          | inl here ↦
              let (ec, ek) = is_row_iff c k c' k' here in
              rw (ec, ek) (ground (arith, e, is_row_self c k))
          | inr elsewhere ↦ ground arith
        ])
]

pub insert_zero_self :
    (c : ℕ) (k : Currency) (table : BalanceTable)
    → insert_zero c k table c k ≡ some (cash table c k)
insert_zero_self c k table = ground (arith, is_row_self c k)

-- A row that is there stays as it is.
pub insert_zero_keeps :
    (c : ℕ) (k : Currency) (table : BalanceTable) (c' : ℕ) (k' : Currency) {b : ℤ}
    → table c' k' ≡ some b
    → insert_zero c k table c' k' ≡ some b
insert_zero_keeps c k table c' k' h = elim (Option-cases (table c k)) [
  | inr (b, e) ↦ rw (e, insert_zero) h
  | inl e ↦
      rw (e, insert_zero)
        (elim (Bool-cases (is_row c k c' k')) [
          | inl here ↦
              let (ec, ek) = is_row_iff c k c' k' here in
              let absent : table c' k' ≡ none = rw (ec, ek) e in cc
          | inr elsewhere ↦ ground arith
        ])
]

pub ensure_balance-returned :
    (c : ℕ) (k : Currency) (w : World) {a : ℤ} {v : World}
    → ensure_balance c k w ≡ (returned a, v)
    → v ≡ with_balances (insert_zero c k w.db.work.balances) w
unfolding ensure_balance
ensure_balance-returned c k w h = ground arith

pub get_balance_for_update-returned :
    (c : ℕ) (k : Currency) (w : World) {a : ℤ} {v : World}
    → get_balance_for_update c k w ≡ (returned a, v)
    → (v ≡ w) × (w.db.work.balances c k ≡ some a)
unfolding get_balance_for_update
get_balance_for_update-returned c k w h = ground arith

pub store_balance-returned :
    (c : ℕ) (k : Currency) (b : ℤ) (w : World) {a : Unit {0}} {v : World}
    → store_balance c k b w ≡ (returned a, v)
    → (v ≡ with_balances (put c k b w.db.work.balances) w) × (pos 0 ≤ℤ b) × (numeric_fits b ≡ true)
unfolding store_balance
store_balance-returned c k b w h = ground arith

pub ensure_balance-returns :
    (c : ℕ) (k : Currency) (w : World)
    → ensure_balance c k w ≡ (
      returned (cash w.db.work.balances c k),
      with_balances (insert_zero c k w.db.work.balances) w,
    )
unfolding ensure_balance
ensure_balance-returns c k w = rw (insert_zero_self c k w.db.work.balances)

pub get_balance_for_update-returns :
    (c : ℕ) (k : Currency) (w : World) {b : ℤ}
    → w.db.work.balances c k ≡ some b
    → get_balance_for_update c k w ≡ (returned b, w)
unfolding get_balance_for_update
get_balance_for_update-returns c k w h = rw h
