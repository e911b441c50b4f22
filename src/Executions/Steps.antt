-- ===== src/Executions/Steps.antt =====
-- What each step of the main `try` block of `execute_quote` has found and done when it returns.
use umba_fx_engine.Prelude.{ℕ, suc, ◌<◌, ◌≡◌, false, some, arith, find?, ◌==◌, ◌∷◌}
use umba_fx_engine.Prelude.Int.{ℤ, ◌≤ℤ◌}
use umba_fx_engine.Money.{Currency}
use umba_fx_engine.Schema.{Quote, Execution}
use umba_fx_engine.Session.{World, returned}
use umba_fx_engine.Session.Backend.{Engine}
use umba_fx_engine.Repositories.Balances.{BalanceTable, insert_zero}
use umba_fx_engine.Repositories.Balances.Laws.{
  with_balances, cash, insert_zero_self, insert_zero_keeps, cash-insert_zero,
}
use umba_fx_engine.Executions.Checks.{
  lock_quote, is_executed, check_unexecuted, check_expiry, check_funds, sorted_pair, lock_balances,
  insert_execution,
}

abbrev pub ticked : World → World
ticked w = record w { readings = suc w.readings }

pub lock_quote-returned :
    (e : Engine) (id : ℕ) (w : World) {quote : Quote} {v : World}
    → lock_quote e id w ≡ (returned quote, v)
    → (v ≡ w) × (find? (λ (q : Quote). q.id == id) w.db.work.quotes ≡ some quote)
unfolding lock_quote
lock_quote-returned e id w h = ground arith

pub check_unexecuted-returned :
    (e : Engine) (quote : Quote) (w : World) {a : Unit {0}} {v : World}
    → check_unexecuted e quote w ≡ (returned a, v)
    → (v ≡ w) × (is_executed quote.id w.db.work.executions ≡ false)
unfolding check_unexecuted
check_unexecuted-returned e quote w h = ground arith

pub check_expiry-returned :
    (e : Engine) (quote : Quote) (w : World) {a : Unit {0}} {v : World}
    → check_expiry e quote w ≡ (returned a, v)
    → (v ≡ ticked w) × (w.clock w.readings < quote.expires_at)
unfolding check_expiry
check_expiry-returned e quote w h = ground arith

pub check_funds-returned :
    (e : Engine) (quote : Quote) (funds : ℤ) (w : World) {a : Unit {0}} {v : World}
    → check_funds e quote funds w ≡ (returned a, v)
    → (v ≡ w) × (quote.source_amount ≤ℤ funds)
unfolding check_funds
check_funds-returned e quote funds w h = ground arith

abbrev pub execution_row : Quote → World → Execution
execution_row quote w = record {
  id = w.next_uuid;
  quote_id = quote.id;
  customer_id = quote.customer_id;
}

abbrev pub with_execution : Quote → World → World
with_execution quote w = record w {
  next_uuid = suc w.next_uuid;
  db = record w.db {
    work = record w.db.work { executions = execution_row quote w ∷ w.db.work.executions };
  };
}

pub insert_execution-returned :
    (quote : Quote) (w : World) {x : Execution} {v : World}
    → insert_execution quote w ≡ (returned x, v)
    → (v ≡ with_execution quote w) × (x ≡ execution_row quote w)
unfolding insert_execution
insert_execution-returned quote w h = ground arith

-- Both rows of the pair exist.
abbrev pub with_both : ℕ → Currency → Currency → BalanceTable → BalanceTable
with_both c source destination table =
    let (first, second) = sorted_pair source destination in
    insert_zero c second (insert_zero c first table)

pub lock_balances-returned :
    (quote : Quote) (w : World) {locked : ℤ × ℤ} {v : World}
    → lock_balances quote w ≡ (returned locked, v)
    → let table = w.db.work.balances in
      let c = quote.customer_id in
      (v ≡ with_balances (with_both c quote.source_currency quote.destination_currency table) w)
      × (locked ≡ (cash table c quote.source_currency, cash table c quote.destination_currency))
unfolding lock_balances
lock_balances-returned quote w h =
    let c = quote.customer_id in
    let table = w.db.work.balances in
    let (first, second) = sorted_pair quote.source_currency quote.destination_currency in
    let once = insert_zero c first table in
    let held : insert_zero c second once c first ≡ some (cash table c first) =
      insert_zero_keeps c second once c first (insert_zero_self c first table) in
    let added : insert_zero c second once c second ≡ some (cash once c second) =
      insert_zero_self c second once in
    ground
      (arith, held, added, cash-insert_zero c first table c second, insert_zero_self c first table)
