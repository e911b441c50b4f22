-- ===== src/Concurrency/Phases.antt =====
-- The phases of one call of `execute_quote` (app/services/executions.py), the locks that it holds in
-- each, and what it does from one to the next.
use umba_fx_engine.Prelude.{
  ℕ, String, Bool, true, false, Option, none, some, List, [], ◌∷◌, ◌≡◌, ◌⊎◌, if◌then◌else◌,
}
use umba_fx_engine.Prelude.Int.{ℤ}
use umba_fx_engine.Money.{Currency, same}
use umba_fx_engine.Schema.{Quote, IdempotencyKey, Payload}
use umba_fx_engine.Observability.{idempotency_replay}
use umba_fx_engine.Repositories.Balances.{BalanceTable, ensure_balance, get_balance_for_update}
use umba_fx_engine.Session.{Outcome, returned, Action, ◌>>=◌, ◌>>◌, pure, gets, write, now, count}
use umba_fx_engine.Session.Backend.{Engine}
use umba_fx_engine.Executions.{claim_key, stored_response, check_same_request, require_key}
use umba_fx_engine.Executions.Rejections.{Request, guarded}
use umba_fx_engine.Executions.Checks.{
  executions_endpoint, set_key, lock_quote, check_unexecuted, check_expiry, check_funds,
  sorted_pair,
}
use umba_fx_engine.Executions.Movement.{move_money, publish}

-- What one transaction makes another wait for: an inserted key, a locked quote, an inserted zero row, a
-- locked balance.
pub data Lock : Type 0 where
  key_lock : String → Lock
  quote_lock : ℕ → Lock
  row_lock : ℕ → Currency → Lock
  balance_lock : ℕ → Currency → Lock

-- Where a call stands, with the local variables that are live there, and with which of the two zero rows
-- it has inserted itself.
pub data Phase : Type 0 where
  fresh : Phase  -- nothing is done yet
  looked : Phase  -- no response is stored under the key
  keyed : Phase  -- the row of the key is inserted
  quoted : Quote → Phase  -- the quote is locked
  checked : Quote → Phase  -- it is executable
  opened : Quote → Bool → Phase  -- the balance first in order has a row
  prepared : Quote → Bool × Bool → Phase  -- and the second
  paying_first : Quote → Bool × Bool → ℤ → Phase  -- the balance first in order is locked, and read
  paying_both : Quote → Bool × Bool → ℤ → ℤ → Phase  -- and the second
  over : Outcome (Payload × Bool) → Phase

-- The currencies in the order in which their rows are locked.
abbrev pub first_currency : Quote → Currency
first_currency quote = (sorted_pair quote.source_currency quote.destination_currency).0

abbrev pub second_currency : Quote → Currency
second_currency quote = (sorted_pair quote.source_currency quote.destination_currency).1

abbrev pub first_lock : Quote → Lock
first_lock quote = balance_lock quote.customer_id (first_currency quote)

abbrev pub second_lock : Quote → Lock
second_lock quote = balance_lock quote.customer_id (second_currency quote)

-- The locks of the zero rows that a call has inserted.
abbrev pub own_locks : Quote → Bool × Bool → List Lock
own_locks quote (first, second) =
    let c = quote.customer_id in
    let of_first = if first then row_lock c (first_currency quote) ∷ [] else [] in
    if second then row_lock c (second_currency quote) ∷ of_first else of_first

-- The locks that a call holds until its transaction ends.
abbrev pub held_locks : Request → Phase → List Lock
held_locks q fresh = []
held_locks q looked = []
held_locks q keyed = key_lock q.idempotency_key ∷ []
held_locks q (quoted quote) = quote_lock q.quote_id ∷ key_lock q.idempotency_key ∷ []
held_locks q (checked quote) = quote_lock q.quote_id ∷ key_lock q.idempotency_key ∷ []
held_locks q (opened quote a) =
    quote_lock q.quote_id ∷ key_lock q.idempotency_key ∷ own_locks quote (a, false)
held_locks q (prepared quote own) =
    quote_lock q.quote_id ∷ key_lock q.idempotency_key ∷ own_locks quote own
held_locks q (paying_first quote own first) =
    first_lock quote ∷ quote_lock q.quote_id ∷ key_lock q.idempotency_key ∷ own_locks quote own
held_locks q (paying_both quote own first second) =
    second_lock quote
    ∷ first_lock quote
    ∷ quote_lock q.quote_id
    ∷ key_lock q.idempotency_key
    ∷ own_locks quote own
held_locks q (over r) = []

abbrev pub IsHeld : Lock → List Lock → Type 0
IsHeld l [] = ⊥
IsHeld l (x ∷ xs) = (l ≡ x) ⊎ IsHeld l xs

-- The lock that the next statement waits for. The insert of a zero row waits while another transaction
-- has the same row inserted and not yet committed; where the row is committed already it neither waits
-- nor inserts one.
abbrev pub wanted : Request → Phase → Option Lock
wanted q fresh = none
wanted q looked = some (key_lock q.idempotency_key)
wanted q keyed = some (quote_lock q.quote_id)
wanted q (quoted quote) = none
wanted q (checked quote) = some (row_lock quote.customer_id (first_currency quote))
wanted q (opened quote a) = some (row_lock quote.customer_id (second_currency quote))
wanted q (prepared quote own) = some (first_lock quote)
wanted q (paying_first quote own first) = some (second_lock quote)
wanted q (paying_both quote own first second) = none
wanted q (over r) = none

unfoldable pub on_stored : Option Payload → Action Phase
on_stored none = pure looked
on_stored (some payload) = count idempotency_replay >> pure (over (returned (payload, true)))

unfoldable pub on_found : Request → Option IdempotencyKey → Action Phase
unfolding on_stored check_same_request
on_found q none = pure looked
on_found q (some row) =
    check_same_request q row >> on_stored (stored_response row.completed_at row.response_payload)

-- Up to the insert of the key.
unfoldable pub look_up : Request → Action Phase
unfolding on_found require_key
look_up q = do
  require_key q
  existing ← gets (λ t. t.keys executions_endpoint q.idempotency_key)
  on_found q existing

-- From the lock of the quote to the first insert of a row.
unfoldable pub check_quote : Engine → Quote → Action (Unit {0})
unfolding check_unexecuted check_expiry
check_quote e quote = do check_unexecuted e quote; check_expiry e quote

-- Whether the row is missing.
abbrev pub is_absent : ℕ → Currency → BalanceTable → Bool
is_absent c k table = elim (table c k) [ none ↦ true | some v ↦ false ]

-- `ensure_balance`, and whether it has inserted the row.
unfoldable pub insert_row : ℕ → Currency → Action Bool
unfolding ensure_balance
insert_row c k = do absent ← gets (λ t. is_absent c k t.balances); ensure_balance c k; pure absent

-- The source's balance and the destination's.
abbrev pub of_locked : Quote → ℤ → ℤ → ℤ × ℤ
of_locked quote first second =
    if same quote.source_currency (first_currency quote) then (first, second) else (second, first)

-- From the lock of the second balance to the commit.
unfoldable pub pay : Engine → Request → Quote → ℤ × ℤ → Action (Payload × Bool)
unfolding check_funds move_money publish
pay e q quote locked = do
  check_funds e quote locked.0
  payload ← move_money e quote locked.0 locked.1
  completed_at ← now
  write (
      set_key q.idempotency_key (record {
        request_hash = q.req_hash;
        response_payload = some payload;
        status_code = some 200;
        completed_at = some completed_at;
      }))
  publish e q quote payload

-- What a call does from one phase to the next.
unfoldable pub advance : Engine → Request → Phase → Action Phase
unfolding look_up claim_key lock_quote guarded check_quote insert_row get_balance_for_update pay
advance e q fresh = look_up q
advance e q looked = claim_key e q >> pure keyed
advance e q keyed = do quote ← guarded e q none (lock_quote e q.quote_id); pure (quoted quote)
advance e q (quoted quote) = do
  guarded e q (some quote.customer_id) (check_quote e quote)
  pure (checked quote)
advance e q (checked quote) = do
  a ← guarded e q (some quote.customer_id) (insert_row quote.customer_id (first_currency quote))
  pure (opened quote a)
advance e q (opened quote a) = do
  b ← guarded e q (some quote.customer_id) (insert_row quote.customer_id (second_currency quote))
  pure (prepared quote (a, b))
advance e q (prepared quote own) = do
  first ←
      guarded e q (some quote.customer_id)
        (get_balance_for_update quote.customer_id (first_currency quote))
  pure (paying_first quote own first)
advance e q (paying_first quote own first) = do
  second ←
      guarded e q (some quote.customer_id)
        (get_balance_for_update quote.customer_id (second_currency quote))
  pure (paying_both quote own first second)
advance e q (paying_both quote own first second) = do
  r ← guarded e q (some quote.customer_id) (pay e q quote (of_locked quote first second))
  pure (over (returned r))
advance e q (over r) = pure (over r)
