-- ===== src/Concurrency/Follows.antt =====
-- Each phase of a call follows the protocol.
use umba_fx_engine.Prelude.{◌≡◌, refl, sym, ap, ◌∙◌, subst, Bool, some}
use umba_fx_engine.Prelude.Int.{ℤ, ◌≤ℤ◌}
use umba_fx_engine.Money.{Currency}
use umba_fx_engine.Errors.{Exception}
use umba_fx_engine.Schema.{Tables, Quote, Payload}
use umba_fx_engine.Session.{World, Outcome, returned, raised, Action}
use umba_fx_engine.Session.Backend.{Engine, IsTransactional}
use umba_fx_engine.Session.Laws.{bind-returned_elim}
use umba_fx_engine.Session.Atomic.{IsAtomic, IsAtomic-run}
use umba_fx_engine.Repositories.Balances.{BalanceTable, or_zero, get_balance_for_update}
use umba_fx_engine.Repositories.Balances.Laws.{cash, get_balance_for_update-returned}
use umba_fx_engine.Repositories.Balances.Range.{InRange}
use umba_fx_engine.Executions.Rejections.{Request, guarded}
use umba_fx_engine.Executions.Effects.{Moved}
use umba_fx_engine.Executions.Steps.{with_both}
use umba_fx_engine.Executions.Correct.{guarded-returned, Moved-Transfer}
use umba_fx_engine.Executions.Spec.{cash-with_both}
use umba_fx_engine.Concurrency.Phases.{
  Phase, fresh, looked, keyed, quoted, checked, opened, prepared, paying_first, paying_both, over,
  first_currency, second_currency, of_locked, pay, advance,
}
use umba_fx_engine.Concurrency.Atomic.{IsAtomic-advance}
use umba_fx_engine.Concurrency.Steps.{pure-returned, of_locked-cash, pay-returned}
use umba_fx_engine.Concurrency.Views.{view, seen}
use umba_fx_engine.Concurrency.Protocol.{
  Relies, Moves, lock_first, lock_second, transfer, refuse, stay,
}
use umba_fx_engine.Concurrency.Entering.{
  Follows, look_up-Moves, looked-Moves, keyed-Moves, quoted-Moves, checked-Moves, opened-Moves,
}

-- An answer or an exception, and what is committed then.
abbrev pub landed : Outcome Phase → Phase
landed (returned phase) = phase
landed (raised x) = over (raised x)

landed-Moves :
    (q : Request) (t : Tables) (phase : Phase) {m : Action Phase} (w : World)
    → IsAtomic m
    → w.db.committed ≡ t
    → ((x : Exception) (v : World)
        → m w ≡ (raised x, v)
        → (r : Outcome (Payload × Bool)) → ¬ (phase ≡ over r))
    → ((next : Phase) (v : World) → m w ≡ (returned next, v) → Moves q t phase next v.db.committed)
    → Moves q t phase (landed (m w).0) (m w).1.db.committed
landed-Moves q t phase {m} w atomic start raises returns = after (m w) refl
  where
    after : (p : Outcome Phase × World) → m w ≡ p → Moves q t phase (landed p.0) p.1.db.committed
    after (returned next, v) h = returns next v h
    after (raised x, v) h =
        subst (Moves q t phase (over (raised x))) (sym (IsAtomic-run atomic h ∙ start))
          (refuse (raises x v h))

-- A call that is over raises nothing more.
raised-not-over :
    (e : Engine) (q : Request) (phase : Phase) (w : World) {x : Exception} {v : World}
    → advance e q phase w ≡ (raised x, v)
    → (r : Outcome (Payload × Bool)) → ¬ (phase ≡ over r)
unfolding advance
raised-not-over e q (over r') w h r is_over = cc
raised-not-over e q fresh w h r is_over = cc
raised-not-over e q looked w h r is_over = cc
raised-not-over e q keyed w h r is_over = cc
raised-not-over e q (quoted quote) w h r is_over = cc
raised-not-over e q (checked quote) w h r is_over = cc
raised-not-over e q (opened quote a) w h r is_over = cc
raised-not-over e q (prepared quote own) w h r is_over = cc
raised-not-over e q (paying_first quote own first) w h r is_over = cc
raised-not-over e q (paying_both quote own first second) w h r is_over = cc

module _ {e : Engine} (law : IsTransactional e) (q : Request) (w : World) where
  -- The lock of a balance reads what the others have committed: the pending rows are zero rows only.
  locked-cash :
      (quote : Quote) (k : Currency) (phase : Phase) {b : ℤ} {v : World}
      → (seen q phase w).db.work.balances
        ≡ with_both quote.customer_id quote.source_currency quote.destination_currency
            w.db.committed.balances
      → guarded e q
          (some quote.customer_id)
          (get_balance_for_update quote.customer_id k)
          (seen q phase w)
        ≡ (returned b, v)
      → (v ≡ seen q phase w) × (b ≡ cash w.db.committed.balances quote.customer_id k)
  locked-cash quote k phase {b} rows h =
      let (s1, row) = get_balance_for_update-returned quote.customer_id k (seen q phase w) (
        guarded-returned e q (some quote.customer_id) (get_balance_for_update quote.customer_id k)
          (seen q phase w) h) in
      (
        s1,
        sym (ap or_zero (sym (ap (λ (table : BalanceTable). table quote.customer_id k) rows) ∙ row))
            ∙ cash-with_both quote.customer_id quote.source_currency quote.destination_currency
                w.db.committed.balances quote.customer_id k,
      )

  prepared-Moves :
      (quote : Quote) (own : Bool × Bool) {next : Phase} {v : World}
      → advance e q (prepared quote own) (seen q (prepared quote own) w) ≡ (returned next, v)
      → Follows q w.db.committed (prepared quote own) next v
  unfolding advance
  prepared-Moves quote own h =
      let k = first_currency quote in
      bind-returned_elim
        (guarded e q (some quote.customer_id) (get_balance_for_update quote.customer_id k)) _
        (seen q (prepared quote own) w) h
        λ b v1 h1 r1.
          let (s1, read) = locked-cash quote k (prepared quote own) refl h1 in
          let (s2, s3) = pure-returned (paying_first quote own b) v1 r1 in
          rw (s2, s3, s1) (lock_first read, refl)

  paying_first-Moves :
      (quote : Quote) (own : Bool × Bool) (first : ℤ) {next : Phase} {v : World}
      → advance e q (paying_first quote own first) (seen q (paying_first quote own first) w)
        ≡ (returned next, v)
      → Follows q w.db.committed (paying_first quote own first) next v
  unfolding advance
  paying_first-Moves quote own first h =
      let k = second_currency quote in
      bind-returned_elim
        (guarded e q (some quote.customer_id) (get_balance_for_update quote.customer_id k)) _
        (seen q (paying_first quote own first) w) h
        λ b v1 h1 r1.
          let (s1, read) = locked-cash quote k (paying_first quote own first) refl h1 in
          let (s2, s3) = pure-returned (paying_both quote own first b) v1 r1 in
          rw (s2, s3, s1) (lock_second read, refl)

  over-Moves :
      (r : Outcome (Payload × Bool)) {next : Phase} {v : World}
      → advance e q (over r) (seen q (over r) w) ≡ (returned next, v)
      → Follows q w.db.committed (over r) next v
  unfolding advance
  over-Moves r h =
      let (s1, s2) = pure-returned (over r) (seen q (over r) w) h in rw (s1, s2) (stay, refl)

  paying_both-Moves :
      (quote : Quote) (own : Bool × Bool) (first second : ℤ) {next : Phase} {v : World}
      → InRange w.db.committed.balances
      → Relies q w.db.committed (paying_both quote own first second)
      → advance e q
          (paying_both quote own first second)
          (seen q (paying_both quote own first second) w)
        ≡ (returned next, v)
      → Follows q w.db.committed (paying_both quote own first second) next v
  unfolding advance
  paying_both-Moves quote own first second range (c, read_first, read_second) h =
      let phase = paying_both quote own first second in
      let locked = of_locked quote first second in
      bind-returned_elim (guarded e q (some quote.customer_id) (pay e q quote locked)) _
        (seen q phase w) h
        λ r v1 h1 r1.
          let (p, u, u', answered, covered, moved, stored, committed, work) =
            pay-returned law q quote locked (seen q phase w) (
              guarded-returned e q (some quote.customer_id) (pay e q quote locked) (seen q phase w)
                h1) in
          let (s2, s3) = pure-returned (over (returned r)) v1 r1 in
          let both : locked ≡ (
            cash w.db.committed.balances quote.customer_id quote.source_currency,
            cash w.db.committed.balances quote.customer_id quote.destination_currency,
          ) =
            rw (read_first, read_second)
              (of_locked-cash quote (cash w.db.committed.balances quote.customer_id)) in
          rw (s2, s3, committed)
            (subst
              (λ (x : Payload × Bool).
                Moves q w.db.committed phase (over (returned x)) u'.db.work
                × (v1.db.work ≡ u'.db.work))
              (sym answered)
              (
                transfer c.time (
                    Moved-Transfer q quote w.db.committed c.time w p c.found range c.unclaimed
                      c.unexecuted c.in_time
                      (subst (λ (l : ℤ × ℤ). quote.source_amount ≤ℤ l.0) both covered)
                      (subst (λ (l : ℤ × ℤ). Moved quote l.0 l.1 (seen q phase w) p u) both moved)
                      stored),
                work,
              ))

  advance-Follows :
      (phase : Phase) {next : Phase} {v : World}
      → InRange w.db.committed.balances
      → Relies q w.db.committed phase
      → advance e q phase (seen q phase w) ≡ (returned next, v)
      → Follows q w.db.committed phase next v
  unfolding advance
  advance-Follows fresh range relies h = look_up-Moves e q w h
  advance-Follows looked range relies h = looked-Moves e q w h
  advance-Follows keyed range relies h = keyed-Moves e q w h
  advance-Follows (quoted quote) range relies h = quoted-Moves e q w quote h
  advance-Follows (checked quote) range relies h = checked-Moves e q w quote h
  advance-Follows (opened quote a) range relies h = opened-Moves e q w quote a h
  advance-Follows (prepared quote own) range relies h = prepared-Moves quote own h
  advance-Follows (paying_first quote own first) range relies h =
      paying_first-Moves quote own first h
  advance-Follows (paying_both quote own first second) range relies h =
      paying_both-Moves quote own first second range relies h
  advance-Follows (over r) range relies h = over-Moves r h

  -- In every phase, whatever it meets: what a call does to the committed tables, and where it stands
  -- then, is a move of the protocol, on balances that fit their column and while what the phase relies
  -- on holds. A phase that raises commits nothing, and only the last one commits, a whole transfer.
  pub advance-Moves :
      (phase : Phase)
      → InRange w.db.committed.balances
      → Relies q w.db.committed phase
      → let (r, v) = advance e q phase (seen q phase w) in
        Moves q w.db.committed phase (landed r) v.db.committed
  advance-Moves phase range relies =
      landed-Moves q w.db.committed phase (seen q phase w) (IsAtomic-advance law q phase) refl
        (λ x v h r. raised-not-over e q phase (seen q phase w) h r)
        λ next v h. (advance-Follows phase range relies h).0

  -- When a phase returns, the tables that the session has at hand are the committed ones with the
  -- pending rows of the next phase.
  pub advance-view :
      (phase : Phase) {next : Phase} {v : World}
      → InRange w.db.committed.balances
      → Relies q w.db.committed phase
      → advance e q phase (seen q phase w) ≡ (returned next, v)
      → v.db.work ≡ view q next v.db.committed
  advance-view phase range relies h = (advance-Follows phase range relies h).1
