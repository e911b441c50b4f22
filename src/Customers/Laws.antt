-- ===== src/Customers/Laws.antt =====
-- What the calls of app/services/customers.py have done when they return.
use umba_fx_engine.Prelude.{ℕ, suc, ◌≡◌, refl, ◌∙◌, sym, ap, true, some, ◌∷◌, arith, if◌then◌else◌}
use mathlib.Core.Option.{some-injective}
use umba_fx_engine.Prelude.Int.{ℤ, pos, ◌<ℤ◌, ◌+ℤ◌}
use umba_fx_engine.Money.{Currency, of_cents, round_money}
use umba_fx_engine.Money.Arithmetic.{Decimal, add}
use umba_fx_engine.Money.Rounding.{round_money-add}
use umba_fx_engine.Schema.{Tables, CreditAdjustment}
use umba_fx_engine.Schema.Columns.{numeric_fits}
use umba_fx_engine.Repositories.Balances.Range.{InRange, numeric_fits-lt}
use umba_fx_engine.Session.{World, returned, ◌>>◌, or_raise, commit, pure}
use umba_fx_engine.Session.Laws.{bind-returned_elim, or_raise-returned}
use umba_fx_engine.Session.Backend.{Engine, IsTransactional}
use umba_fx_engine.Repositories.Balances.{
  BalanceTable, is_row, insert_zero, put, ensure_balance, get_balance_for_update, store_balance,
}
use umba_fx_engine.Repositories.Balances.Laws.{
  cash, cash-insert_zero, cash-put, with_balances, insert_zero_self, ensure_balance-returned,
  get_balance_for_update-returned, store_balance-returned,
}
use umba_fx_engine.Customers.{
  is_customer, assert_customer_exists, insert_adjustment, credit_entry, credit_balance,
}
use umba_fx_engine.Errors.{invalid_operation}
use umba_fx_engine.Repositories.Ledger.{append_entry}
use umba_fx_engine.Repositories.Ledger.Laws.{append_entry-returned}

abbrev adjustment_row : ℕ → Currency → ℤ → World → CreditAdjustment
adjustment_row customer k amount w = record {
  id = w.next_uuid;
  customer_id = customer;
  currency = k;
  amount = amount;
  reason = "manual_credit";
  source = "test_fixture";
}

abbrev credited_tables : ℕ → Currency → ℤ → ℤ → World → Tables
credited_tables customer k rounded b w =
    let t = w.db.work in
    let adjustment = adjustment_row customer k rounded w in
    record t {
      balances = put customer k b (insert_zero customer k t.balances);
      adjustments = adjustment ∷ t.adjustments;
      entries = credit_entry adjustment ∷ t.entries;
    }

pub assert_customer_exists-returned :
    (e : Engine) (customer : ℕ) (w : World) {a : Unit {0}} {v : World}
    → assert_customer_exists e customer w ≡ (returned a, v)
    → (v ≡ w) × (is_customer customer w.db.work.customers ≡ true)
unfolding assert_customer_exists
assert_customer_exists-returned e customer w h = ground arith

abbrev with_adjustment : CreditAdjustment → World → World
with_adjustment a w = record w {
  next_uuid = suc w.next_uuid;
  db = record w.db { work = record w.db.work { adjustments = a ∷ w.db.work.adjustments } };
}

insert_adjustment-returned :
    (customer : ℕ) (k : Currency) (amount : ℤ) (w : World) {a : CreditAdjustment} {v : World}
    → insert_adjustment customer k amount w ≡ (returned a, v)
    → (a ≡ adjustment_row customer k amount w) × (v ≡ with_adjustment a w)
unfolding insert_adjustment
insert_adjustment-returned customer k amount w h = ground arith

finish-returned :
    {e : Engine}
    → IsTransactional e
    → (b : ℤ) (w : World) {a : ℤ} {v : World} → (commit e >> pure b) w ≡ (returned a, v)
    → (a ≡ b) × (v.db.committed ≡ w.db.work)
finish-returned law b w h = ground (arith, law.commit_lem w.db)

record Recorded (customer : ℕ) (k : Currency) (amount : Decimal) (w : World) (b : ℤ) (v : World)
    : Type 0 where
  rounded : ℤ
  rounds : round_money amount k ≡ some rounded
  known : is_customer customer w.db.work.customers ≡ true
  amount_pos : pos 0 <ℤ rounded
  amount_fits : numeric_fits rounded ≡ true
  balance_fits : numeric_fits b ≡ true
  result :
      round_money (add (of_cents (cash w.db.work.balances customer k)) (of_cents rounded)) k
      ≡ some b
  committed : v.db.committed ≡ credited_tables customer k rounded b w

module _ {e : Engine} (law : IsTransactional e) where
  credit_balance-returned :
      (customer : ℕ) (k : Currency) (amount : Decimal) (w : World) {b : ℤ} {v : World}
      → credit_balance e customer k amount w ≡ (returned b, v)
      → Recorded customer k amount w b v
  unfolding credit_balance
  credit_balance-returned customer k amount w h =
      bind-returned_elim (assert_customer_exists e customer) _ w h λ _ v1 h1 r1.
        bind-returned_elim (or_raise invalid_operation (round_money amount k)) _ v1 r1
          λ rounded v2 h2 r2. bind-returned_elim (ensure_balance customer k) _ v2 r2 λ _ v3 h3 r3.
            bind-returned_elim (get_balance_for_update customer k) _ v3 r3 λ balance v4 h4 r4.
              bind-returned_elim (insert_adjustment customer k rounded) _ v4 r4
                λ adjustment v5 h5 r5.
                  bind-returned_elim (append_entry (credit_entry adjustment)) _ v5 r5 λ _ v6 h6 r6.
                    bind-returned_elim
                      (or_raise invalid_operation
                        (round_money (add (of_cents balance) (of_cents rounded)) k))
                      _ v6 r6
                      λ b v7 h7 r7.
                        bind-returned_elim (store_balance customer k b) _ v7 r7 λ _ v8 h8 r8.
                          let (s1, known) = assert_customer_exists-returned e customer w h1 in
                          let (s2, rounds) =
                            or_raise-returned invalid_operation (round_money amount k) v1 h2 in
                          let s3 = ensure_balance-returned customer k v2 h3 in
                          let (s4, locked) = get_balance_for_update-returned customer k v3 h4 in
                          let (ae, s5) = insert_adjustment-returned customer k rounded v4 h5 in
                          let (_, s6, amount_pos, amount_fits, _) =
                            append_entry-returned (credit_entry adjustment) v5 h6 in
                          let (s7, result) =
                            or_raise-returned invalid_operation
                              (round_money (add (of_cents balance) (of_cents rounded)) k) v6 h7 in
                          let (s8, _, balance_fits) = store_balance-returned customer k b v7 h8 in
                          let (be, s9) = finish-returned law b v8 r8 in
                          let start : v4
                              ≡ with_balances (insert_zero customer k w.db.work.balances) w =
                            rw (s4, s3, s2, s1) in
                          let row : insert_zero customer k w.db.work.balances customer k
                              ≡ some balance =
                            rw (s3, s2, s1) at locked in
                          let held : balance ≡ cash w.db.work.balances customer k =
                            some-injective _ _
                              (sym row ∙ insert_zero_self customer k w.db.work.balances) in
                          record {
                            rounded = rounded;
                            rounds = rounds;
                            known = known;
                            amount_pos = rw ae at amount_pos;
                            amount_fits = rw ae at amount_fits;
                            balance_fits = rw be balance_fits;
                            result = rw (be, ← held) result;
                            committed = rw (s9, s8, s7, s6, s5, be, ae, start);
                          }

-- `Credit customer k amount before b after`: the rounded amount was added to one balance, with its
-- ledger entry and its audit record, and `b` is the new balance.
pub record Credit (customer : ℕ) (k : Currency) (amount : Decimal) (before : Tables) (b : ℤ)
    (after : Tables) : Type 0 where
  pub rounded : ℤ
  pub rounds : round_money amount k ≡ some rounded
  pub known : is_customer customer before.customers ≡ true
  pub amount_pos : pos 0 <ℤ rounded
  pub result : b ≡ cash before.balances customer k +ℤ rounded
  pub result_fits : numeric_fits b ≡ true
  pub balances :
      (c : ℕ) (k' : Currency)
      → cash after.balances c k' ≡ (if is_row customer k c k' then b else cash before.balances c k')
  pub adjustment : CreditAdjustment
  pub of_row :
      (adjustment.customer_id ≡ customer)
      × (adjustment.currency ≡ k)
      × (adjustment.amount ≡ rounded)
  pub adjustments : after.adjustments ≡ adjustment ∷ before.adjustments
  pub entries : after.entries ≡ credit_entry adjustment ∷ before.entries
  pub others : after ≡ record before {
    balances = after.balances;
    adjustments = after.adjustments;
    entries = after.entries;
  }

cash-credited :
    (customer : ℕ) (k : Currency) (b : ℤ) (table : BalanceTable) (c : ℕ) (k' : Currency)
    → cash (put customer k b (insert_zero customer k table)) c k'
      ≡ (if is_row customer k c k' then b else cash table c k')
cash-credited customer k b table c k' =
    cash-put customer k b (insert_zero customer k table) c k'
    ∙ ap (λ rest. if is_row customer k c k' then b else rest)
        (cash-insert_zero customer k table c k')

module _ {e : Engine} (law : IsTransactional e) where
  -- When `credit_balance` returns, on balances that fit their column, what it has committed is exactly
  -- one credit of the rounded amount.
  pub credit_balance-Credit :
      (customer : ℕ) (k : Currency) (amount : Decimal) (w : World) {b : ℤ} {v : World}
      → credit_balance e customer k amount w ≡ (returned b, v)
      → InRange w.db.work.balances
      → Credit customer k amount w.db.work b v.db.committed
  credit_balance-Credit customer k amount w {b} {v} h range =
      let r = credit_balance-returned law customer k amount w h in
      let small = numeric_fits-lt r.rounded r.amount_fits in
      let small' = numeric_fits-lt (cash w.db.work.balances customer k) (range customer k) in
      let exact =
        round_money-add (cash w.db.work.balances customer k) r.rounded k (omega arith)
          (omega arith) in
      rw r.committed (record {
        rounded = r.rounded;
        rounds = r.rounds;
        known = r.known;
        amount_pos = r.amount_pos;
        result = some-injective _ _ (sym r.result ∙ exact);
        result_fits = r.balance_fits;
        balances = cash-credited customer k b w.db.work.balances;
        adjustment = adjustment_row customer k r.rounded w;
        of_row = (refl, refl, refl);
        adjustments = refl;
        entries = refl;
        others = refl;
      })
