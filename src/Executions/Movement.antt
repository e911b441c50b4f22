-- ===== src/Executions/Movement.antt =====
-- app/services/executions.py, the second half of the main `try` block of `execute_quote`: two ledger
-- entries with the two balances, and the stored response, committed together.
use umba_fx_engine.Prelude.{Bool, false, none, some, List, [], ◌∷◌, if◌then◌else◌}
use umba_fx_engine.Prelude.Int.{ℤ}
use umba_fx_engine.Money.{Currency, same, of_cents, round_money}
use umba_fx_engine.Money.Arithmetic.{add, sub}
use umba_fx_engine.Errors.{invalid_operation}
use umba_fx_engine.Schema.{
  Quote, Execution, LedgerEntry, Direction, debit, credit, ref_execution, Payload,
}
use umba_fx_engine.Observability.{execution_success}
use umba_fx_engine.Repositories.Balances.{store_balance}
use umba_fx_engine.Repositories.Ledger.{append_entry}
use umba_fx_engine.Session.{
  Action, ◌>>=◌, ◌>>◌, pure, raise, or_raise, write, now, count, log_event, info, uuid, string,
  currency, money, rate, commit,
}
use umba_fx_engine.Session.Backend.{Engine}
use umba_fx_engine.Executions.Rejections.{Request, text_or_null}
use umba_fx_engine.Executions.Checks.{
  set_key, check_unexecuted, check_expiry, check_funds, lock_balances, insert_execution,
}

abbrev pub leg_entry : Quote → Execution → Currency → ℤ → Direction → LedgerEntry
leg_entry quote execution k amount direction = record {
  customer_id = quote.customer_id;
  currency = k;
  amount = amount;
  direction = direction;
  reference_type = ref_execution;
  reference_id = execution.id;
}

-- `_after_debit_hook`
unfoldable pub after_debit_hook : Engine → Action (Unit {0})
after_debit_hook e = elim e.after_debit [ none ↦ pure tt | some x ↦ raise x ]

-- The dict `{source: …, destination: …}`; a quote within one currency has one row, and one item.
unfoldable pub final_balances : Quote → ℤ → ℤ → List (Currency × ℤ)
final_balances quote source destination =
    if same quote.source_currency quote.destination_currency
    then (quote.source_currency, destination) ∷ []
    else (quote.source_currency, source) ∷ (quote.destination_currency, destination) ∷ []

-- `_execution_response`
unfoldable pub execution_response :
    Execution → LedgerEntry → LedgerEntry → List (Currency × ℤ) → Payload
execution_response execution debit_entry credit_entry balances = record {
  execution_id = execution.id;
  quote_id = execution.quote_id;
  debit_leg = record { currency = debit_entry.currency; amount = debit_entry.amount };
  credit_leg = record { currency = credit_entry.currency; amount = credit_entry.amount };
  balances = balances;
}

-- The debit and the credit, from the locked balances. The new source balance is flushed with the
-- credit's entry, and the new destination balance at the commit. Within one currency both names
-- stand for one row.
unfoldable pub move_money : Engine → Quote → ℤ → ℤ → Action Payload
unfolding append_entry store_balance insert_execution after_debit_hook execution_response
move_money e quote source_balance destination_balance = do
  let customer = quote.customer_id
  let source = quote.source_currency
  let destination = quote.destination_currency
  execution ← insert_execution quote
  debit_entry ← append_entry (leg_entry quote execution source quote.source_amount debit)
  new_source ←
      or_raise invalid_operation
        (round_money (sub (of_cents source_balance) (of_cents quote.source_amount)) source)
  after_debit_hook e
  store_balance customer source new_source
  credit_entry ←
      append_entry (leg_entry quote execution destination quote.destination_amount credit)
  let held = if same source destination then new_source else destination_balance
  new_destination ←
      or_raise invalid_operation
        (round_money (add (of_cents held) (of_cents quote.destination_amount)) destination)
  store_balance customer destination new_destination
  pure (
      execution_response execution debit_entry credit_entry
        (final_balances quote new_source new_destination))

-- The checks and the movement, to the row of the key as the commit flushes it.
unfoldable pub settle : Engine → Request → Quote → Action Payload
settle e q quote = do
  check_unexecuted e quote
  check_expiry e quote
  locked ← lock_balances quote
  check_funds e quote locked.0
  payload ← move_money e quote locked.0 locked.1
  completed_at ← now
  write (
      set_key q.idempotency_key (record {
        request_hash = q.req_hash;
        response_payload = some payload;
        status_code = some 200;
        completed_at = some completed_at;
      }))
  pure payload

-- What is logged of a success.
unfoldable pub log_completed : Request → Quote → Payload → Action (Unit {0})
log_completed q quote payload = log_event "execution.completed" info (
    ("request_id", text_or_null q.request_id)
    ∷ ("customer_id", uuid quote.customer_id)
    ∷ ("quote_id", uuid quote.id)
    ∷ ("execution_id", uuid payload.execution_id)
    ∷ ("idempotency_key", string q.idempotency_key)
    ∷ ("source_currency", currency quote.source_currency)
    ∷ ("destination_currency", currency quote.destination_currency)
    ∷ ("source_amount", money quote.source_amount)
    ∷ ("destination_amount", money quote.destination_amount)
    ∷ ("executable_rate", rate quote.executable_rate)
    ∷ ("outcome", string "success")
    ∷ [])

unfoldable pub publish : Engine → Request → Quote → Payload → Action (Payload × Bool)
unfolding log_completed
publish e q quote payload = do
  commit e
  count execution_success
  log_completed q quote payload
  pure (payload, false)
