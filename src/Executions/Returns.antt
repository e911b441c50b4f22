-- ===== src/Executions/Returns.antt =====
-- The steps of `execute_quote` return where nothing stands against them.
use umba_fx_engine.Prelude.{
  ℕ, ◌<◌, ◌≡◌, refl, true, false, Option, none, some, List, [], ◌∷◌, All, any, arith, if◌then◌else◌,
}
use umba_fx_engine.Prelude.Int.{ℤ, pos, ◌≤ℤ◌, ◌<ℤ◌, ◌+ℤ◌, ◌-ℤ◌, int_laws}
use umba_fx_engine.Errors.{Exception, invalid_operation}
use umba_fx_engine.Money.{Currency, same, of_cents, round_money}
use umba_fx_engine.Money.Arithmetic.{add, sub}
use umba_fx_engine.Money.Rounding.{round_money-sub, round_money-add}
use umba_fx_engine.Schema.{Quote, LedgerEntry, debit, credit}
use umba_fx_engine.Schema.Columns.{numeric_fits}
use umba_fx_engine.Session.{World, Action, returned, ◌>>=◌, or_raise, pure}
use umba_fx_engine.Session.Backend.{Engine}
use umba_fx_engine.Repositories.Balances.{
  put, insert_zero, ensure_balance, get_balance_for_update, store_balance,
}
use umba_fx_engine.Repositories.Balances.Laws.{
  with_balances, insert_zero_self, insert_zero_keeps, ensure_balance-returns,
  get_balance_for_update-returns,
}
use umba_fx_engine.Repositories.Balances.Range.{numeric_fits-lt}
use umba_fx_engine.Repositories.Ledger.{append_entry, conflicts}
use umba_fx_engine.Repositories.Ledger.Laws.{with_entry}
use umba_fx_engine.Executions.Checks.{
  is_executed, check_expiry, check_funds, lock_balances, insert_execution, sorted_pair,
}
use umba_fx_engine.Executions.Movement.{leg_entry, after_debit_hook, move_money}
use umba_fx_engine.Executions.Steps.{ticked, execution_row, with_execution}

-- The action returns from this world.
pub record Returns {A : Type 0} (m : Action A) (w : World) : Type 0 where
  pub value : A
  pub next : World
  pub runs : m w ≡ (returned value, next)

module _ {A B : Type 0} where
  pub bind-Returns :
      (m : Action A) (f : A → Action B) {w : World} {a : A} {v : World}
      → m w ≡ (returned a, v)
      → Returns (f a) v
      → Returns (m >>= f) w
  bind-Returns m f h r = record { value = r.value; next = r.next; runs = rw h r.runs }

pub check_expiry-passes :
    (e : Engine) (quote : Quote) (w : World)
    → w.clock w.readings < quote.expires_at
    → check_expiry e quote w ≡ (returned tt, ticked w)
unfolding check_expiry
check_expiry-passes e quote w h = ground arith

pub check_funds-passes :
    (e : Engine) (quote : Quote) (funds : ℤ) (w : World)
    → quote.source_amount ≤ℤ funds
    → check_funds e quote funds w ≡ (returned tt, w)
unfolding check_funds
check_funds-passes e quote funds w h = ground arith

pure-Returns : {A : Type 0} (a : A) (w : World) → Returns (pure a) w
pure-Returns a w = record { value = a; next = w; runs = refl }

pub lock_balances-Returns : (quote : Quote) (w : World) → Returns (lock_balances quote) w
unfolding lock_balances
lock_balances-Returns quote w =
    let c = quote.customer_id in
    let table = w.db.work.balances in
    let (first, second) = sorted_pair quote.source_currency quote.destination_currency in
    let once = insert_zero c first table in
    let w2 = with_balances (insert_zero c second once) w in
    bind-Returns (ensure_balance c first) _ (ensure_balance-returns c first w) (
      bind-Returns (ensure_balance c second) _
        (ensure_balance-returns c second (with_balances once w))
        (bind-Returns (get_balance_for_update c first) _
          (get_balance_for_update-returns c first w2
            (insert_zero_keeps c second once c first (insert_zero_self c first table)))
          (bind-Returns (get_balance_for_update c second) _
            (get_balance_for_update-returns c second w2 (insert_zero_self c second once))
            (pure-Returns _ w2))))

insert_execution-returns :
    (quote : Quote) (w : World)
    → is_executed quote.id w.db.work.executions ≡ false
    → insert_execution quote w ≡ (returned (execution_row quote w), with_execution quote w)
unfolding insert_execution
insert_execution-returns quote w h = rw h

append_entry-returns :
    (x : LedgerEntry) (w : World)
    → pos 0 <ℤ x.amount
    → numeric_fits x.amount ≡ true
    → any (conflicts x) w.db.work.entries ≡ false
    → append_entry x w ≡ (returned x, with_entry x w)
unfolding append_entry
append_entry-returns x w h fits free = ground arith

store_balance-returns :
    (c : ℕ) (k : Currency) (b : ℤ) (w : World)
    → pos 0 ≤ℤ b
    → numeric_fits b ≡ true
    → store_balance c k b w ≡ (returned tt, with_balances (put c k b w.db.work.balances) w)
unfolding store_balance
store_balance-returns c k b w h fits = ground arith

-- No entry has the identifier that comes next.
abbrev pub IsFresh : ℕ → List LedgerEntry → Type 0
IsFresh id entries = All (λ (x : LedgerEntry). x.reference_id < id) entries

IsFresh-conflicts :
    (x : LedgerEntry) (entries : List LedgerEntry)
    → IsFresh x.reference_id entries
    → any (conflicts x) entries ≡ false
IsFresh-conflicts x [] f = refl
IsFresh-conflicts x (y ∷ ys) (later, f) = ground (arith, IsFresh-conflicts x ys f)

-- What the movement needs of the quote and of the two locked balances.
pub record IsPayable (quote : Quote) (source destination : ℤ) : Type 0 where
  pub source_pos : pos 0 <ℤ quote.source_amount
  pub source_fits : numeric_fits quote.source_amount ≡ true
  pub destination_pos : pos 0 <ℤ quote.destination_amount
  pub destination_fits : numeric_fits quote.destination_amount ≡ true
  pub covered : quote.source_amount ≤ℤ source
  pub balance_fits : numeric_fits source ≡ true
  pub held_fits : numeric_fits destination ≡ true
  pub balance_nonneg : pos 0 ≤ℤ destination
  pub room : numeric_fits (destination +ℤ quote.destination_amount) ≡ true
  pub distinct : same quote.source_currency quote.destination_currency ≡ false

fits-sub :
    (a b : ℤ)
    → pos 0 <ℤ b
    → b ≤ℤ a
    → numeric_fits a ≡ true
    → (pos 0 ≤ℤ a -ℤ b) × (numeric_fits (a -ℤ b) ≡ true)
unfolding ◌-ℤ◌
fits-sub a b h k f = ground arith

or_raise-returns :
    {A : Type 0} (x : Exception) {o : Option A} {a : A} (w : World)
    → o ≡ some a
    → or_raise x o w ≡ (returned a, w)
or_raise-returns x w h = rw h

after_debit_hook-returns :
    (e : Engine) (w : World) → e.after_debit ≡ none → after_debit_hook e w ≡ (returned tt, w)
unfolding after_debit_hook
after_debit_hook-returns e w h = rw h

-- The two new balances are exact.
exact_source :
    {quote : Quote} {source destination : ℤ}
    → IsPayable quote source destination
    → round_money (sub (of_cents source) (of_cents quote.source_amount)) quote.source_currency
      ≡ some (source -ℤ quote.source_amount)
exact_source {quote} {source} p =
    let small = numeric_fits-lt source p.balance_fits in
    let small' = numeric_fits-lt quote.source_amount p.source_fits in
    round_money-sub source quote.source_amount quote.source_currency (omega arith) (omega arith)

exact_destination :
    {quote : Quote} {source destination : ℤ} (new_source : ℤ)
    → IsPayable quote source destination
    → let held =
        if same quote.source_currency quote.destination_currency then new_source else destination in
      round_money
        (add (of_cents held) (of_cents quote.destination_amount))
        quote.destination_currency
      ≡ some (destination +ℤ quote.destination_amount)
exact_destination {quote} {source} {destination} new_source p =
    let small = numeric_fits-lt destination p.held_fits in
    let small' = numeric_fits-lt quote.destination_amount p.destination_fits in
    rw p.distinct (
      round_money-add destination quote.destination_amount quote.destination_currency (omega arith)
        (omega arith))

pub move_money-Returns :
    (e : Engine) (quote : Quote) (source destination : ℤ) (w : World)
    → e.after_debit ≡ none
    → is_executed quote.id w.db.work.executions ≡ false
    → IsFresh w.next_uuid w.db.work.entries
    → IsPayable quote source destination
    → Returns (move_money e quote source destination) w
unfolding move_money
move_money-Returns e quote source destination w quiet unexecuted fresh payable =
    let c = quote.customer_id in
    let d =
      leg_entry quote (execution_row quote w) quote.source_currency quote.source_amount debit in
    let k =
      leg_entry quote (execution_row quote w) quote.destination_currency quote.destination_amount
        credit in
    let w1 = with_execution quote w in
    let w2 = with_entry d w1 in
    let w3 =
      with_balances
        (put c quote.source_currency (source -ℤ quote.source_amount) w2.db.work.balances) w2 in
    let w4 = with_entry k w3 in
    let lowered =
      fits-sub source quote.source_amount payable.source_pos payable.covered payable.balance_fits in
    let more = payable.destination_pos in
    let some_held = payable.balance_nonneg in
    let higher : pos 0 ≤ℤ destination +ℤ quote.destination_amount = omega int_laws in
    bind-Returns (insert_execution quote) _ (insert_execution-returns quote w unexecuted) (
      bind-Returns (append_entry d) _
        (append_entry-returns d w1 payable.source_pos payable.source_fits
          (IsFresh-conflicts d w.db.work.entries fresh))
        (bind-Returns
          (or_raise invalid_operation (
            round_money (sub (of_cents source) (of_cents quote.source_amount))
              quote.source_currency))
          _ (or_raise-returns invalid_operation w2 (exact_source payable))
          (bind-Returns (after_debit_hook e) _ (after_debit_hook-returns e w2 quiet) (
            bind-Returns (store_balance c quote.source_currency (source -ℤ quote.source_amount)) _
              (store_balance-returns c quote.source_currency (source -ℤ quote.source_amount) w2
                lowered.0 lowered.1)
              (bind-Returns (append_entry k) _
                (append_entry-returns k w3 payable.destination_pos payable.destination_fits
                  (ground (arith, IsFresh-conflicts k w.db.work.entries fresh)))
                (bind-Returns
                  (or_raise invalid_operation (
                    round_money
                      (add
                        (of_cents (
                          if same quote.source_currency quote.destination_currency
                          then source -ℤ quote.source_amount
                          else destination))
                        (of_cents quote.destination_amount))
                      quote.destination_currency))
                  _
                  (or_raise-returns invalid_operation w4
                    (exact_destination (source -ℤ quote.source_amount) payable))
                  (bind-Returns
                    (store_balance c quote.destination_currency
                      (destination +ℤ quote.destination_amount))
                    _
                    (store_balance-returns c quote.destination_currency
                      (destination +ℤ quote.destination_amount) w4 higher payable.room)
                    (pure-Returns _ _))))))))
