-- ===== src/Executions/Success.antt =====
-- `execute_quote` on a request that nothing stands against: it returns.
use umba_fx_engine.Prelude.{◌<◌, ◌≡◌, refl, ◌∙◌, false, none, some, find?, ◌==◌}
use umba_fx_engine.Schema.{Quote, Payload}
use umba_fx_engine.Session.{World, returned}
use umba_fx_engine.Session.Backend.{Engine}
use umba_fx_engine.Repositories.Balances.Laws.{cash}
use umba_fx_engine.Executions.{execute_once, execute_quote}
use umba_fx_engine.Executions.Rejections.{Request, guarded}
use umba_fx_engine.Executions.Checks.{
  is_executed, check_unexecuted, check_expiry, check_funds, lock_balances,
}
use umba_fx_engine.Executions.Refusals.{
  IsFirst, claimed, execute_quote-first, lock_quote-found, check_unexecuted-passes,
}
use umba_fx_engine.Executions.Movement.{move_money, settle, publish}
use umba_fx_engine.Executions.Steps.{ticked, lock_balances-returned}
use umba_fx_engine.Executions.Returns.{
  Returns, bind-Returns, check_expiry-passes, check_funds-passes, lock_balances-Returns,
  move_money-Returns, IsFresh, IsPayable,
}

-- Nothing stands against the request: it is the first under its key, its quote is unexecuted, still
-- valid and payable, and the identifier that comes next is on no ledger entry.
pub record IsExecutable (q : Request) (w : World) (quote : Quote) : Type 0 where
  pub first : IsFirst q w
  pub found : find? (λ (r : Quote). r.id == q.quote_id) w.db.work.quotes ≡ some quote
  pub unexecuted : is_executed quote.id w.db.work.executions ≡ false
  pub in_time : w.clock w.readings < quote.expires_at
  pub fresh : IsFresh w.next_uuid w.db.work.entries
  pub payable :
      IsPayable quote
        (cash w.db.work.balances quote.customer_id quote.source_currency)
        (cash w.db.work.balances quote.customer_id quote.destination_currency)

settle-Returns :
    (e : Engine) (q : Request) (w : World) {quote : Quote}
    → e.after_debit ≡ none
    → IsExecutable q w quote
    → Returns (settle e q quote) (claimed q w)
unfolding settle
settle-Returns e q w {quote} quiet ok =
    let w0 = claimed q w in
    let w1 = ticked w0 in
    let locks = lock_balances-Returns quote w1 in
    let (same_world, same_funds) = lock_balances-returned quote w1 locks.runs in
    let payable : IsPayable quote locks.value.0 locks.value.1 = rw same_funds ok.payable in
    let moves =
      move_money-Returns e quote locks.value.0 locks.value.1 locks.next quiet
        (rw same_world ok.unexecuted) (rw same_world ok.fresh) payable in
    bind-Returns (check_unexecuted e quote) _ (check_unexecuted-passes e quote w0 ok.unexecuted) (
      bind-Returns (check_expiry e quote) _ (check_expiry-passes e quote w0 ok.in_time) (
        bind-Returns (lock_balances quote) _ locks.runs (
          bind-Returns (check_funds e quote locks.value.0) _
            (check_funds-passes e quote locks.value.0 locks.next payable.covered)
            (bind-Returns (move_money e quote locks.value.0 locks.value.1) _ moves.runs
              (record { value = moves.value; next = _; runs = refl })))))

-- A request that nothing stands against is executed, with the debit hook of production: `execute_quote`
-- returns a new execution.
pub execute_quote_succeeds :
    (e : Engine) (q : Request) (w : World) {quote : Quote}
    → e.after_debit ≡ none
    → IsExecutable q w quote
    → (p : Payload) × (v : World) × (execute_quote e q w ≡ (returned (p, false), v))
unfolding execute_once guarded publish
execute_quote_succeeds e q w {quote} quiet ok =
    let done = settle-Returns e q w quiet ok in
    let run = execute_quote-first e q w ok.first in
    let found = lock_quote-found e q.quote_id (claimed q w) ok.found in
    let last = (publish e q quote done.value done.next).1 in
    (done.value, last, run ∙ rw (found, done.runs) refl)
