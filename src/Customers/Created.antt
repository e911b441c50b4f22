-- ===== src/Customers/Created.antt =====
-- What `create_customer` and `get_balances` have done when they return.
use umba_fx_engine.Prelude.{ℕ, suc, ◌≡◌, refl, ap, ◌∙◌, true, some, List, [], ◌∷◌, map, arith}
use umba_fx_engine.Prelude.Int.{ℤ}
use umba_fx_engine.Money.{Currency, usd, eur, kes, ngn, currencies}
use umba_fx_engine.Money.Rounding.{round_money-of_cents}
use umba_fx_engine.Schema.{Tables}
use umba_fx_engine.Session.{World, returned}
use umba_fx_engine.Session.Backend.{Engine, IsTransactional}
use umba_fx_engine.Repositories.Balances.{
  BalanceTable, insert_zero, ensure_each, ensure_all_balances, rounded_balances, list_balances,
}
use umba_fx_engine.Repositories.Balances.Laws.{
  with_balances, cash, cash-insert_zero, insert_zero_self, insert_zero_keeps,
  ensure_balance-returns,
}
use umba_fx_engine.Repositories.Balances.Range.{InRange, numeric_fits-lt}
use umba_fx_engine.Customers.{create_customer, is_customer, assert_customer_exists, get_balances}

-- The rows of all currencies listed exist.
abbrev pub insert_all : ℕ → List Currency → BalanceTable → BalanceTable
insert_all c [] table = table
insert_all c (k ∷ ks) table = insert_all c ks (insert_zero c k table)

cash-insert_all :
    (c : ℕ) (ks : List Currency) (table : BalanceTable) (c' : ℕ) (k' : Currency)
    → cash (insert_all c ks table) c' k' ≡ cash table c' k'
cash-insert_all c [] table c' k' = refl
cash-insert_all c (k ∷ ks) table c' k' =
    cash-insert_all c ks (insert_zero c k table) c' k' ∙ cash-insert_zero c k table c' k'

insert_all_keeps :
    (c : ℕ) (ks : List Currency) (table : BalanceTable) (c' : ℕ) (k' : Currency) {b : ℤ}
    → table c' k' ≡ some b
    → insert_all c ks table c' k' ≡ some b
insert_all_keeps c [] table c' k' h = h
insert_all_keeps c (k ∷ ks) table c' k' h =
    insert_all_keeps c ks (insert_zero c k table) c' k' (insert_zero_keeps c k table c' k' h)

-- Every currency has a row, with the balance that it counted for before.
insert_all_row :
    (c : ℕ) (table : BalanceTable) (k : Currency)
    → insert_all c currencies table c k ≡ some (cash table c k)
insert_all_row c table usd =
    insert_all_keeps c (eur ∷ kes ∷ ngn ∷ []) (insert_zero c usd table) c usd
      (insert_zero_self c usd table)
insert_all_row c table eur =
    let t1 = insert_all c (usd ∷ []) table in
    insert_all_keeps c (kes ∷ ngn ∷ []) (insert_zero c eur t1) c eur (insert_zero_self c eur t1)
    ∙ ap some (cash-insert_all c (usd ∷ []) table c eur)
insert_all_row c table kes =
    let t1 = insert_all c (usd ∷ eur ∷ []) table in
    insert_all_keeps c (ngn ∷ []) (insert_zero c kes t1) c kes (insert_zero_self c kes t1)
    ∙ ap some (cash-insert_all c (usd ∷ eur ∷ []) table c kes)
insert_all_row c table ngn =
    let t1 = insert_all c (usd ∷ eur ∷ kes ∷ []) table in
    insert_zero_self c ngn t1 ∙ ap some (cash-insert_all c (usd ∷ eur ∷ kes ∷ []) table c ngn)

ensure_each-returns :
    (c : ℕ) (ks : List Currency) (w : World)
    → ensure_each c ks w ≡ (returned tt, with_balances (insert_all c ks w.db.work.balances) w)
unfolding ensure_each
ensure_each-returns c [] w = refl
ensure_each-returns c (k ∷ ks) w =
    rw (ensure_balance-returns c k w)
      (ensure_each-returns c ks (with_balances (insert_zero c k w.db.work.balances) w))

ensure_all_balances-returns :
    (c : ℕ) (w : World)
    → ensure_all_balances c w
      ≡ (returned tt, with_balances (insert_all c currencies w.db.work.balances) w)
unfolding ensure_all_balances
ensure_all_balances-returns c w = ensure_each-returns c currencies w

-- `Joined id before after`: the tables after are those before with the customer `id`, who has a row for
-- each currency; no balance changes by it, so a new customer has nothing.
pub record Joined (id : ℕ) (before after : Tables) : Type 0 where
  pub customers : after.customers ≡ id ∷ before.customers
  pub rows : (k : Currency) → after.balances id k ≡ some (cash before.balances id k)
  pub balances : (c : ℕ) (k : Currency) → cash after.balances c k ≡ cash before.balances c k
  pub others : after ≡ record before { customers = after.customers; balances = after.balances }

abbrev joined_tables : ℕ → Tables → Tables
joined_tables id t = record t {
  customers = id ∷ t.customers;
  balances = insert_all id currencies t.balances;
}

-- `create_customer` always returns, and what it has committed is one new customer.
pub create_customer-Joined :
    {e : Engine}
    → IsTransactional e
    → (w : World)
    → let (r, v) = create_customer e w in
      (r ≡ returned w.next_uuid) × Joined w.next_uuid w.db.work v.db.committed
unfolding create_customer
create_customer-Joined law w =
    let w1 = record w {
      next_uuid = suc w.next_uuid;
      db = record w.db {
        work = record w.db.work { customers = w.next_uuid ∷ w.db.work.customers };
      };
    } in
    rw (ensure_all_balances-returns w.next_uuid w1, law.commit_lem)
      (
        refl,
        record {
          customers = refl;
          rows = insert_all_row w.next_uuid w.db.work.balances;
          balances = cash-insert_all w.next_uuid currencies w.db.work.balances;
          others = refl;
        },
      )

rounded_balances-returns :
    (table : BalanceTable) (c : ℕ) (ks : List Currency) (w : World)
    → InRange table
    → rounded_balances table c ks w ≡ (returned (map (λ k. (k, cash table c k)) ks), w)
unfolding rounded_balances
rounded_balances-returns table c [] w range = refl
rounded_balances-returns table c (k ∷ ks) w range =
    let small = numeric_fits-lt (cash table c k) (range c k) in
    rw (
      round_money-of_cents (cash table c k) k (omega arith),
      rounded_balances-returns table c ks w range,
    )

-- `get_balances` of a known customer returns the balance in each currency, in the order of the
-- currencies, as long as balances fit their column; and it commits nothing.
pub get_balances-returns :
    (e : Engine) (c : ℕ) (w : World)
    → is_customer c w.db.work.customers ≡ true
    → InRange w.db.work.balances
    → let (r, v) = get_balances e c w in
      (r ≡ returned (map (λ k. (k, cash w.db.work.balances c k)) currencies))
      × (v.db.committed ≡ w.db.committed)
unfolding get_balances list_balances assert_customer_exists
get_balances-returns e c w known range =
    let table = insert_all c currencies w.db.work.balances in
    let w1 = with_balances table w in
    let same : (k : Currency) → cash table c k ≡ cash w.db.work.balances c k =
      cash-insert_all c currencies w.db.work.balances c in
    let listed : map (λ k. (k, cash table c k)) currencies
        ≡ map (λ k. (k, cash w.db.work.balances c k)) currencies =
      rw (same usd, same eur, same kes, same ngn) refl in
    rw
      (
        known,
        ensure_all_balances-returns c w,
        rounded_balances-returns table c currencies w1
            (λ c' k. rw (cash-insert_all c currencies w.db.work.balances c' k) (range c' k)),
      )
      (ap returned listed, refl)
