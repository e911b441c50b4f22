-- ===== src/Concurrency/Protocol.antt =====
-- The protocol that the phases of app/services/executions.py follow, stated on the committed tables.
use umba_fx_engine.Prelude.{ℕ, ◌<◌, ◌≡◌, Bool, none, some, true, false, find?, ◌==◌}
use umba_fx_engine.Prelude.Int.{ℤ}
use umba_fx_engine.Schema.{Tables, Quote, Payload}
use umba_fx_engine.Session.{Outcome, returned, raised}
use umba_fx_engine.Errors.{Exception}
use umba_fx_engine.Repositories.Balances.{insert_zero}
use umba_fx_engine.Repositories.Balances.Laws.{cash}
use umba_fx_engine.Executions.Rejections.{Request}
use umba_fx_engine.Executions.Checks.{executions_endpoint, is_executed}
use umba_fx_engine.Executions.Spec.{Transfer}
use umba_fx_engine.Executions.Replays.{IsReplay}
use umba_fx_engine.Concurrency.Phases.{
  Phase, fresh, looked, keyed, quoted, checked, opened, prepared, paying_first, paying_both, over,
  first_currency, second_currency, is_absent,
}

abbrev pub IsUnclaimed : Request → Tables → Type 0
IsUnclaimed q t = t.keys executions_endpoint q.idempotency_key ≡ none

abbrev pub IsFound : Request → Quote → Tables → Type 0
IsFound q quote t = find? (λ (x : Quote). x.id == q.quote_id) t.quotes ≡ some quote

-- The quote of the request may be executed.
pub record IsChecked (q : Request) (quote : Quote) (t : Tables) : Type 0 where
  pub unclaimed : IsUnclaimed q t
  pub found : IsFound q quote t
  pub unexecuted : is_executed quote.id t.executions ≡ false
  pub time : ℕ
  pub in_time : time < quote.expires_at

-- What a session that stands in a phase relies on, whatever the others commit.
abbrev pub Relies : Request → Tables → Phase → Type 0
Relies q t fresh = Unit
Relies q t looked = Unit
Relies q t keyed = IsUnclaimed q t
Relies q t (quoted quote) = IsUnclaimed q t × IsFound q quote t
Relies q t (checked quote) = IsChecked q quote t
Relies q t (opened quote a) = IsChecked q quote t
Relies q t (prepared quote own) = IsChecked q quote t
Relies q t (paying_first quote own first) =
    IsChecked q quote t × (first ≡ cash t.balances quote.customer_id (first_currency quote))
Relies q t (paying_both quote own first second) =
    IsChecked q quote t
    × (first ≡ cash t.balances quote.customer_id (first_currency quote))
    × (second ≡ cash t.balances quote.customer_id (second_currency quote))
Relies q t (over r) = Unit

-- `Moves q t phase next u`: from `phase` to `next`, while the committed tables go from `t` to `u`.
pub data Moves (q : Request) (t : Tables) : Phase → Phase → Tables → Type 0 where
  look : Moves q t fresh looked t
  replay : {p : Payload} → IsReplay q t p → Moves q t fresh (over (returned (p, true))) t
  claim : IsUnclaimed q t → Moves q t looked keyed t
  find : {quote : Quote} → IsFound q quote t → Moves q t keyed (quoted quote) t
  check :
      {quote : Quote} (time : ℕ)
      → is_executed quote.id t.executions ≡ false
      → time < quote.expires_at
      → Moves q t (quoted quote) (checked quote) t
  open_first :
      {quote : Quote} {a : Bool}
      → a ≡ is_absent quote.customer_id (first_currency quote) t.balances
      → Moves q t (checked quote) (opened quote a) t
  open_second :
      {quote : Quote} {a b : Bool}
      → b
        ≡ is_absent quote.customer_id
            (second_currency quote)
            (insert_zero quote.customer_id (first_currency quote) t.balances)
      → Moves q t (opened quote a) (prepared quote (a, b)) t
  lock_first :
      {quote : Quote} {own : Bool × Bool} {first : ℤ}
      → first ≡ cash t.balances quote.customer_id (first_currency quote)
      → Moves q t (prepared quote own) (paying_first quote own first) t
  lock_second :
      {quote : Quote} {own : Bool × Bool} {first second : ℤ}
      → second ≡ cash t.balances quote.customer_id (second_currency quote)
      → Moves q t (paying_first quote own first) (paying_both quote own first second) t
  transfer :
      {quote : Quote} {own : Bool × Bool} {first second : ℤ} {p : Payload} {u : Tables} (time : ℕ)
      → Transfer q time t p u
      → Moves q t (paying_both quote own first second) (over (returned (p, false))) u
  refuse :
      {phase : Phase} {x : Exception}
      → ((r : Outcome (Payload × Bool)) → ¬ (phase ≡ over r))
      → Moves q t phase (over (raised x)) t
  stay : {r : Outcome (Payload × Bool)} → Moves q t (over r) (over r) t
