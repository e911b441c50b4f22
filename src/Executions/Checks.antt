-- ===== src/Executions/Checks.antt =====
-- app/services/executions.py, the first half of the main `try` block of `execute_quote`: the quote is
-- locked and checked, its two balances are locked and checked, and the execution is recorded.
use umba_fx_engine.Prelude.{
  ℕ, String, Bool, true, false, ◌&&◌, Option, none, some, List, ◌∷◌, find?, ◌==◌, leb, ltb, str_eq,
  if◌then◌else◌,
}
use umba_fx_engine.Prelude.Int.{ℤ, ltb_ℤ}
use umba_fx_engine.Money.{Currency, rank, same}
use umba_fx_engine.Errors.{Exception, api, conflict, not_found, integrity_error}
use umba_fx_engine.Schema.{Tables, Quote, Execution, IdempotencyKey}
use umba_fx_engine.Observability.{quote_expired, insufficient_funds}
use umba_fx_engine.Repositories.Balances.{ensure_balance, get_balance_for_update}
use umba_fx_engine.Session.{
  Action, ◌>>=◌, ◌>>◌, pure, raise, gets, write, raise_if, when, now, uuid4, count, rollback,
}
use umba_fx_engine.Session.Backend.{Engine}
use umba_fx_engine.Executions.Rejections.{
  error_quote_not_found, error_quote_already_executed, error_quote_expired,
  error_insufficient_funds,
}
use Prim.Native.String.{◌++◌ as ◌<>◌}

-- `_EXECUTIONS_ENDPOINT`
abbrev pub executions_endpoint : String
executions_endpoint = "POST /executions"

-- The pending row of `idempotency_keys`, inserted or updated.
abbrev pub set_key : String → IdempotencyKey → Tables → Tables
set_key key row t = record t {
  keys = λ endpoint k.
      if str_eq endpoint executions_endpoint && str_eq k key then some row else t.keys endpoint k;
}

-- `session.rollback()` before a raise.
abbrev pub reject : {A : Type 0} → Engine → Exception → Action A
reject e x = rollback e >> raise x

unfoldable pub require_quote : Engine → ℕ → Option Quote → Action Quote
require_quote e quote_id none =
    reject e
      (api (not_found error_quote_not_found ("Quote " <> e.str_uuid quote_id <> " not found.")))
require_quote e quote_id (some quote) = pure quote

-- `SELECT … FROM quotes WHERE id = quote_id FOR UPDATE`
unfoldable pub lock_quote : Engine → ℕ → Action Quote
unfolding require_quote
lock_quote e quote_id = do
  quote ← gets (λ t. find? (λ (q : Quote). q.id == quote_id) t.quotes)
  require_quote e quote_id quote

abbrev pub find_execution : ℕ → List Execution → Option Execution
find_execution quote_id = find? (λ (x : Execution). x.quote_id == quote_id)

abbrev pub is_executed : ℕ → List Execution → Bool
is_executed quote_id xs = elim (find_execution quote_id xs) [ none ↦ false | some x ↦ true ]

-- The quote is not executed, has not expired, and is covered; the balances are those locked.
unfoldable pub check_unexecuted : Engine → Quote → Action (Unit {0})
check_unexecuted e quote = do
  executed ← gets (λ t. is_executed quote.id t.executions)
  when executed
      (reject e (api (conflict error_quote_already_executed "Quote has already been executed.")))

unfoldable pub check_expiry : Engine → Quote → Action (Unit {0})
check_expiry e quote = do
  time ← now
  when (leb quote.expires_at time) (do
    rollback e
    count quote_expired
    raise (api (conflict error_quote_expired "Quote has expired.")))

unfoldable pub check_funds : Engine → Quote → ℤ → Action (Unit {0})
check_funds e quote funds = when (ltb_ℤ funds quote.source_amount) (do
  rollback e
  count insufficient_funds
  raise (api (conflict error_insufficient_funds "Insufficient source balance.")))

-- `sorted((a, b), key=lambda c: c.value)`
abbrev pub sorted_pair : Currency → Currency → Currency × Currency
sorted_pair a b = if ltb (rank b) (rank a) then (b, a) else (a, b)

-- Both rows exist and are locked in the order of the currencies' codes; the result is the source's
-- balance and the destination's.
unfoldable pub lock_balances : Quote → Action (ℤ × ℤ)
unfolding ensure_balance get_balance_for_update
lock_balances quote =
    let customer = quote.customer_id in
    let source = quote.source_currency in
    let destination = quote.destination_currency in
    let (first, second) = sorted_pair source destination in
    do
      ensure_balance customer first
      ensure_balance customer second
      first_balance ← get_balance_for_update customer first
      second_balance ← get_balance_for_update customer second
      pure (
          if same source first
          then (first_balance, second_balance)
          else (second_balance, first_balance))

-- The row of `executions`, under `uq_executions_quote_id`.
unfoldable pub insert_execution : Quote → Action Execution
insert_execution quote = do
  id ← uuid4
  taken ← gets (λ t. is_executed quote.id t.executions)
  raise_if taken integrity_error
  let execution : Execution = record {
    id = id;
    quote_id = quote.id;
    customer_id = quote.customer_id;
  }
  write (λ t. record t { executions = execution ∷ t.executions })
  pure execution
