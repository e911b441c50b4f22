-- ===== src/Executions/Funds.antt =====
-- `execute_quote` on a quote that the source balance does not cover.
use umba_fx_engine.Prelude.{◌<◌, ◌≡◌, refl, ap, ◌∙◌, false, some, arith, find?, ◌==◌}
use umba_fx_engine.Prelude.Int.{ℤ, ◌<ℤ◌}
use umba_fx_engine.Schema.{Quote}
use umba_fx_engine.Session.{World}
use umba_fx_engine.Session.Backend.{Engine, IsTransactional}
use umba_fx_engine.Repositories.Balances.Laws.{cash}
use umba_fx_engine.Executions.Rejections.{Request}
use umba_fx_engine.Executions.Checks.{is_executed, check_funds}
use umba_fx_engine.Executions.Refusals.{IsFirst, claimed, check_unexecuted-passes}
use umba_fx_engine.Executions.Movement.{settle}
use umba_fx_engine.Executions.Steps.{ticked, lock_balances-returned}
use umba_fx_engine.Errors.{api, conflict}
use umba_fx_engine.Session.{raised}
use umba_fx_engine.Observability.{insufficient_funds}
use umba_fx_engine.Executions.Rejections.{error_insufficient_funds}
use umba_fx_engine.Executions.Refusals.{IsRefused, settle-IsRefused}
use umba_fx_engine.Executions.Returns.{check_expiry-passes, lock_balances-Returns}

module _ {e : Engine} (law : IsTransactional e) where
  check_funds-short :
      (quote : Quote) (funds : ℤ) (w : World)
      → funds <ℤ quote.source_amount
      → (v : World) × (check_funds e quote funds w
          ≡ (raised (api (conflict error_insufficient_funds "Insufficient source balance.")), v))
        × (v.db.committed ≡ w.db.committed)
        × (v.metrics ≡ insufficient_funds w.metrics)
  unfolding check_funds
  check_funds-short quote funds w short = (
    (check_funds e quote funds w).1,
    ground arith,
    ground (arith, law.rollback_lem w.db),
    ground arith,
  )

  -- A first request for an unexecuted, unexpired quote that the source balance does not cover is
  -- refused, and nothing is left of it but the counters of insufficient funds and of failures.
  pub execute_quote_insufficient :
      (q : Request) (w : World) {quote : Quote}
      → IsFirst q w
      → find? (λ (r : Quote). r.id == q.quote_id) w.db.work.quotes ≡ some quote
      → is_executed quote.id w.db.work.executions ≡ false
      → w.clock w.readings < quote.expires_at
      → cash w.db.work.balances quote.customer_id quote.source_currency <ℤ quote.source_amount
      → IsRefused law
          (api (conflict error_insufficient_funds "Insufficient source balance."))
          q
          w
          (insufficient_funds w.metrics)
  unfolding settle
  execute_quote_insufficient q w {quote} first found unexecuted in_time short =
      let w0 = claimed q w in
      let w1 = ticked w0 in
      let locks = lock_balances-Returns quote w1 in
      let (same_world, same_funds) = lock_balances-returned quote w1 locks.runs in
      let short' : locks.value.0 <ℤ quote.source_amount = rw same_funds short in
      let (v, run, kept, counted) = check_funds-short quote locks.value.0 locks.next short' in
      settle-IsRefused law q w {v = v} first found
        (rw
          (
            check_unexecuted-passes e quote w0 unexecuted,
            check_expiry-passes e quote w0 in_time,
            locks.runs,
            run,
          )
          refl)
        (kept ∙ ap (λ (x : World). x.db.committed) same_world)
        (counted ∙ ap (λ (x : World). insufficient_funds x.metrics) same_world)
