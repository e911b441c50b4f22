-- ===== src/Executions/Spec.antt =====
-- What a successful `execute_quote` has done, stated on the tables alone.
use umba_fx_engine.Prelude.{
  ℕ, ◌<◌, ◌≡◌, refl, String, true, false, none, some, ◌∷◌, ◌∙◌, ap, arith, find?, ◌==◌,
  if◌then◌else◌, Bool-cases, inl, inr, str_eq, ◌&&◌,
}
use umba_fx_engine.Prelude.Int.{ℤ, pos, ◌≤ℤ◌, ◌<ℤ◌, ◌+ℤ◌, ◌-ℤ◌}
use umba_fx_engine.Money.{Currency, same}
use umba_fx_engine.Money.Rounding.{round_money-sub, round_money-add}
use umba_fx_engine.Schema.{
  Tables, Quote, LedgerEntry, Payload, Direction, debit, credit, ref_execution,
}
use umba_fx_engine.Schema.Columns.{numeric_fits}
use umba_fx_engine.Repositories.Balances.{BalanceTable, is_row, insert_zero, put}
use umba_fx_engine.Repositories.Balances.Laws.{
  cash, same_eq, same_comm, is_row_owner, is_row_iff, cash-insert_zero,
}
use umba_fx_engine.Repositories.Balances.Range.{numeric_fits-lt}
use umba_fx_engine.Executions.Rejections.{Request}
use umba_fx_engine.Executions.Checks.{is_executed, sorted_pair, executions_endpoint}
use umba_fx_engine.Executions.Steps.{with_both}
use umba_fx_engine.Executions.Effects.{new_source, new_destination, completed_key}

-- The source's balance falls by the quote's source amount, exactly.
pub new_source_lem :
    (quote : Quote) (source : ℤ)
    → numeric_fits source ≡ true
    → numeric_fits quote.source_amount ≡ true
    → new_source quote source ≡ source -ℤ quote.source_amount
new_source_lem quote source h k =
    let small = numeric_fits-lt source h in
    let small' = numeric_fits-lt quote.source_amount k in
    rw
      (round_money-sub source quote.source_amount quote.source_currency (omega arith) (omega arith))

-- The balance that the credit is added to.
abbrev pub held : Quote → ℤ → ℤ → ℤ
held quote source destination =
    if same quote.source_currency quote.destination_currency
    then new_source quote source
    else destination

pub new_destination_lem :
    (quote : Quote) (source destination : ℤ)
    → numeric_fits (held quote source destination) ≡ true
    → numeric_fits quote.destination_amount ≡ true
    → new_destination quote source destination
      ≡ held quote source destination +ℤ quote.destination_amount
new_destination_lem quote source destination h k =
    let small = numeric_fits-lt (held quote source destination) h in
    let small' = numeric_fits-lt quote.destination_amount k in
    rw (
      round_money-add (held quote source destination) quote.destination_amount
        quote.destination_currency (omega arith) (omega arith))

-- The balance of (c, k) once the quote's source amount has left its row.
abbrev pub after_debit : Quote → BalanceTable → ℕ → Currency → ℤ
after_debit quote table c k =
    if is_row quote.customer_id quote.source_currency c k
    then cash table c k -ℤ quote.source_amount
    else cash table c k

-- … and once its destination amount has come to its row.
abbrev pub after_transfer : Quote → BalanceTable → ℕ → Currency → ℤ
after_transfer quote table c k =
    if is_row quote.customer_id quote.destination_currency c k
    then after_debit quote table c k +ℤ quote.destination_amount
    else after_debit quote table c k

pub cash-with_both :
    (owner : ℕ) (a b : Currency) (table : BalanceTable) (c : ℕ) (k : Currency)
    → cash (with_both owner a b table) c k ≡ cash table c k
cash-with_both owner a b table c k =
    let (first, second) = sorted_pair a b in
    cash-insert_zero owner second (insert_zero owner first table) c k
    ∙ cash-insert_zero owner first table c k

-- The table that the movement leaves.
abbrev pub moved_table : Quote → BalanceTable → BalanceTable
moved_table quote table =
    let owner = quote.customer_id in
    let source = cash table owner quote.source_currency in
    let destination = cash table owner quote.destination_currency in
    put owner quote.destination_currency (new_destination quote source destination) (
      put owner quote.source_currency (new_source quote source)
        (with_both owner quote.source_currency quote.destination_currency table))

-- The balance that the credit is added to is the destination's after the debit: within one currency
-- the debit has changed it.
held-eq-after_debit :
    (quote : Quote) (table : BalanceTable)
    → let source = cash table quote.customer_id quote.source_currency in
      new_source quote source ≡ source -ℤ quote.source_amount
      → held quote source (cash table quote.customer_id quote.destination_currency)
        ≡ after_debit quote table quote.customer_id quote.destination_currency
held-eq-after_debit quote table lowered =
    let s = quote.source_currency in
    let d = quote.destination_currency in
    elim (Bool-cases (same s d)) [
      | inl one ↦
          let e = same_eq s d one in
          rw (one, is_row_owner quote.customer_id s d, same_comm d s, one, lowered, e)
      | inr two ↦ rw (two, is_row_owner quote.customer_id s d, same_comm d s, two)
    ]

-- With the exact new balances every balance is what the transfer makes of it.
pub cash-moved_table :
    (quote : Quote) (table : BalanceTable) (c : ℕ) (k : Currency)
    → let owner = quote.customer_id in
      let source = cash table owner quote.source_currency in
      let destination = cash table owner quote.destination_currency in
      new_source quote source ≡ source -ℤ quote.source_amount
      → new_destination quote source destination
        ≡ held quote source destination +ℤ quote.destination_amount
      → cash (moved_table quote table) c k ≡ after_transfer quote table c k
cash-moved_table quote table c k lowered raised_to =
    let owner = quote.customer_id in
    elim (Bool-cases (is_row owner quote.destination_currency c k)) [
      | inl here ↦
          let (ec, ek) = is_row_iff owner quote.destination_currency c k here in
          rw (here, raised_to, ec, ek)
            (ap (λ b. b +ℤ quote.destination_amount) (held-eq-after_debit quote table lowered))
      | inr elsewhere ↦ elim (Bool-cases (is_row owner quote.source_currency c k)) [
        | inl source_row ↦
            let (ec, ek) = is_row_iff owner quote.source_currency c k source_row in
            rw (elsewhere, source_row, lowered, ec, ek) refl
        | inr other ↦
            rw (elsewhere, other)
              (cash-with_both owner quote.source_currency quote.destination_currency table c k)
      ]
    ]

abbrev pub transfer_entry : Quote → ℕ → Currency → ℤ → Direction → LedgerEntry
transfer_entry quote execution_id k amount direction = record {
  customer_id = quote.customer_id;
  currency = k;
  amount = amount;
  direction = direction;
  reference_type = ref_execution;
  reference_id = execution_id;
}

-- `Transfer q time before p after`: the tables after the request `q`, whose clock read `time`, are
-- those before it with one execution of its quote, and `p` is the response.
pub record Transfer (q : Request) (time : ℕ) (before : Tables) (p : Payload) (after : Tables)
    : Type 0 where
  pub quote : Quote
  pub found : find? (λ (x : Quote). x.id == q.quote_id) before.quotes ≡ some quote
  pub unexecuted : is_executed quote.id before.executions ≡ false
  pub in_time : time < quote.expires_at
  pub covered : quote.source_amount ≤ℤ cash before.balances quote.customer_id quote.source_currency
  pub source_pos : pos 0 <ℤ quote.source_amount
  pub destination_pos : pos 0 <ℤ quote.destination_amount
  -- Every balance, of every customer, in every currency.
  pub balances :
      (c : ℕ) (k : Currency) → cash after.balances c k ≡ after_transfer quote before.balances c k
  pub fits : (c : ℕ) (k : Currency) → numeric_fits (cash after.balances c k) ≡ true
  pub executions :
      after.executions
      ≡ record { id = p.execution_id; quote_id = quote.id; customer_id = quote.customer_id }
        ∷ before.executions
  pub entries :
      after.entries
      ≡ transfer_entry quote p.execution_id quote.destination_currency quote.destination_amount
          credit
        ∷ transfer_entry quote p.execution_id quote.source_currency quote.source_amount debit
        ∷ before.entries
  -- The key was free, the response is stored under it, and no other key is touched.
  pub unclaimed : before.keys executions_endpoint q.idempotency_key ≡ none
  pub completed_at : ℕ
  pub keys :
      (endpoint key : String)
      → after.keys endpoint key ≡ (
          if str_eq endpoint executions_endpoint && str_eq key q.idempotency_key
          then some (completed_key q p completed_at)
          else before.keys endpoint key)
  -- Nothing else changes.
  pub others : after ≡ record before {
    balances = after.balances;
    executions = after.executions;
    entries = after.entries;
    keys = after.keys;
  }
  -- The response tells the terms of the quote.
  pub of_quote : p.quote_id ≡ quote.id
  pub debited :
      p.debit_leg ≡ record { currency = quote.source_currency; amount = quote.source_amount }
  pub credited :
      p.credit_leg
      ≡ record { currency = quote.destination_currency; amount = quote.destination_amount }
