-- ===== src/Concurrency/Steps.antt =====
-- What the parts of a phase have found and done when they return.
use umba_fx_engine.Prelude.{ℕ, ◌∙◌, ◌<◌, ◌≡◌, refl, Bool, true, false, Option, none, some, arith}
use umba_fx_engine.Prelude.Int.{ℤ, ◌≤ℤ◌}
use umba_fx_engine.Money.{Currency}
use umba_fx_engine.Schema.{Quote, Payload}
use umba_fx_engine.Session.{World, returned, pure}
use umba_fx_engine.Session.Backend.{Engine, IsTransactional}
use umba_fx_engine.Session.Laws.{bind-returned_elim}
use umba_fx_engine.Repositories.Balances.{insert_zero, ensure_balance}
use umba_fx_engine.Repositories.Balances.Laws.{with_balances, ensure_balance-returned}
use umba_fx_engine.Executions.Rejections.{Request}
use umba_fx_engine.Executions.Checks.{is_executed, check_unexecuted, check_funds}
use umba_fx_engine.Executions.Movement.{move_money}
use umba_fx_engine.Executions.Effects.{move_money-returned, with_key, Moved}
use umba_fx_engine.Executions.Steps.{
  ticked, check_unexecuted-returned, check_expiry-returned, check_funds-returned,
}
use umba_fx_engine.Executions.Correct.{publish-returned}
use umba_fx_engine.Concurrency.Phases.{
  Phase, looked, over, first_currency, second_currency, on_stored, check_quote, insert_row,
  is_absent, of_locked, pay,
}

pub pure-returned :
    {A : Type 0} (a : A) (w : World) {b : A} {v : World}
    → pure a w ≡ (returned b, v)
    → (b ≡ a) × (v ≡ w)
pure-returned a w h = ground arith

pub on_stored-returned :
    (stored : Option Payload) (w : World) {phase : Phase} {v : World}
    → on_stored stored w ≡ (returned phase, v)
    → (v.db ≡ w.db)
      × ((p : Payload) → stored ≡ some p → phase ≡ over (returned (p, true)))
      × (stored ≡ none → phase ≡ looked)
unfolding on_stored
on_stored-returned none w h = (ground arith, λ p e. ground arith, λ e. ground arith)
on_stored-returned (some q) w h = (ground arith, λ p e. ground arith, λ e. ground arith)

pub check_quote-returned :
    (e : Engine) (quote : Quote) (w : World) {a : Unit {0}} {v : World}
    → check_quote e quote w ≡ (returned a, v)
    → (v ≡ ticked w)
      × (is_executed quote.id w.db.work.executions ≡ false)
      × (w.clock w.readings < quote.expires_at)
unfolding check_quote
check_quote-returned e quote w h = bind-returned_elim (check_unexecuted e quote) _ w h λ _ v1 h1 r1.
    let (s1, unexecuted) = check_unexecuted-returned e quote w h1 in
    let (s2, in_time) = check_expiry-returned e quote v1 r1 in
    (rw (s2, s1) refl, unexecuted, rw s1 at in_time)

pub insert_row-returned :
    (c : ℕ) (k : Currency) (w : World) {absent : Bool} {v : World}
    → insert_row c k w ≡ (returned absent, v)
    → (v ≡ with_balances (insert_zero c k w.db.work.balances) w)
      × (absent ≡ is_absent c k w.db.work.balances)
unfolding insert_row
insert_row-returned c k w h =
    let new = is_absent c k w.db.work.balances in
    bind-returned_elim (ensure_balance c k) (λ _. pure new) w h
      λ _ v1 h1 r1.
        let s1 = ensure_balance-returned c k w h1 in
        let (s2, s3) = pure-returned new v1 r1 in (s3 ∙ s1, s2)

-- The locked balances are the source's and the destination's, whichever comes first.
pub of_locked-cash :
    (quote : Quote) (f : Currency → ℤ)
    → of_locked quote (f (first_currency quote)) (f (second_currency quote))
      ≡ (f quote.source_currency, f quote.destination_currency)
of_locked-cash quote f = ground arith

pub pay-returned :
    {e : Engine}
    → IsTransactional e
    → (q : Request) (quote : Quote) (locked : ℤ × ℤ) (w : World) {r : Payload × Bool} {v : World}
    → pay e q quote locked w ≡ (returned r, v)
    → (p : Payload) × (u u' : World) × (r ≡ (p, false))
      × (quote.source_amount ≤ℤ locked.0)
      × Moved quote locked.0 locked.1 w p u
      × (u' ≡ with_key q p u)
      × (v.db.committed ≡ u'.db.work)
      × (v.db.work ≡ u'.db.work)
unfolding pay
pay-returned {e} law q quote locked w h =
    bind-returned_elim (check_funds e quote locked.0) _ w h λ _ v1 h1 r1.
      bind-returned_elim (move_money e quote locked.0 locked.1) _ v1 r1 λ p v2 h2 r2.
        let (s1, covered) = check_funds-returned e quote locked.0 w h1 in
        let moved = move_money-returned e quote locked.0 locked.1 v1 h2 in
        let (answered, committed, work) = publish-returned law q quote p (with_key q p v2) r2 in
        (p, v2, with_key q p v2, answered, covered, rw s1 at moved, refl, committed, work)
