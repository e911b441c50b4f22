-- ===== src/Executions/Effects.antt =====
-- What the main `try` block of `execute_quote` has done to the tables when it returns.
use umba_fx_engine.Prelude.{ℕ, suc, ◌<◌, ◌≡◌, true, false, some, arith, ◌∷◌, if◌then◌else◌}
use umba_fx_engine.Prelude.Int.{ℤ, pos, ◌≤ℤ◌, ◌<ℤ◌}
use umba_fx_engine.Money.{Currency, same, of_cents, round_money}
use umba_fx_engine.Money.Arithmetic.{add, sub}
use umba_fx_engine.Schema.{Quote, LedgerEntry, Payload, IdempotencyKey, debit, credit}
use umba_fx_engine.Schema.Columns.{numeric_fits}
use umba_fx_engine.Session.{World, returned, pure, write, now, ◌>>=◌, ◌>>◌}
use umba_fx_engine.Session.Laws.{bind-returned_elim}
use umba_fx_engine.Session.Backend.{Engine}
use umba_fx_engine.Repositories.Balances.{or_zero, put}
use umba_fx_engine.Repositories.Balances.Laws.{with_balances, cash}
use umba_fx_engine.Executions.Movement.{
  leg_entry, after_debit_hook, final_balances, move_money, settle,
}
use umba_fx_engine.Executions.Checks.{
  set_key, is_executed, check_unexecuted, check_expiry, check_funds, lock_balances,
}
use umba_fx_engine.Executions.Rejections.{Request}
use umba_fx_engine.Executions.Steps.{
  execution_row, ticked, with_both, check_unexecuted-returned, check_expiry-returned,
  lock_balances-returned, check_funds-returned,
}

after_debit_hook-returned :
    (e : Engine) (w : World) {a : Unit {0}} {v : World}
    → after_debit_hook e w ≡ (returned a, v)
    → v ≡ w
unfolding after_debit_hook
after_debit_hook-returned e w h = ground arith

abbrev pub debit_entry : Quote → World → LedgerEntry
debit_entry quote w =
    leg_entry quote (execution_row quote w) quote.source_currency quote.source_amount debit

abbrev pub credit_entry : Quote → World → LedgerEntry
credit_entry quote w =
    leg_entry quote (execution_row quote w) quote.destination_currency quote.destination_amount
      credit

-- The world after the movement, with the new balances.
abbrev pub moved : Quote → ℤ → ℤ → World → World
moved quote new_source new_destination w =
    let c = quote.customer_id in
    record w {
      next_uuid = suc w.next_uuid;
      db = record w.db {
        work = record w.db.work {
          executions = execution_row quote w ∷ w.db.work.executions;
          entries = credit_entry quote w ∷ debit_entry quote w ∷ w.db.work.entries;
          balances =
              put c quote.destination_currency new_destination
                (put c quote.source_currency new_source w.db.work.balances);
        };
      };
    }

-- The new balances, from those that were locked.
abbrev pub new_source : Quote → ℤ → ℤ
new_source quote source =
    or_zero
      (round_money (sub (of_cents source) (of_cents quote.source_amount)) quote.source_currency)

abbrev pub new_destination : Quote → ℤ → ℤ → ℤ
new_destination quote source destination =
    let held =
      if same quote.source_currency quote.destination_currency
      then new_source quote source
      else destination in
    or_zero (
      round_money (add (of_cents held) (of_cents quote.destination_amount))
        quote.destination_currency)

pub record Moved (quote : Quote) (source destination : ℤ) (w : World) (p : Payload) (v : World)
    : Type 0 where
  pub source_pos : pos 0 <ℤ quote.source_amount
  pub source_fits : numeric_fits quote.source_amount ≡ true
  pub destination_pos : pos 0 <ℤ quote.destination_amount
  pub destination_fits : numeric_fits quote.destination_amount ≡ true
  pub new_source_nonneg : pos 0 ≤ℤ new_source quote source
  pub new_source_fits : numeric_fits (new_source quote source) ≡ true
  pub new_destination_fits : numeric_fits (new_destination quote source destination) ≡ true
  pub after : v ≡ moved quote (new_source quote source) (new_destination quote source destination) w
  pub of_execution : p.execution_id ≡ w.next_uuid
  pub of_quote : p.quote_id ≡ quote.id
  pub debited :
      p.debit_leg ≡ record { currency = quote.source_currency; amount = quote.source_amount }
  pub credited :
      p.credit_leg
      ≡ record { currency = quote.destination_currency; amount = quote.destination_amount }
  pub reported :
      p.balances
      ≡ final_balances quote (new_source quote source) (new_destination quote source destination)

pub move_money-returned :
    (e : Engine) (quote : Quote) (source destination : ℤ) (w : World) {p : Payload} {v : World}
    → move_money e quote source destination w ≡ (returned p, v)
    → Moved quote source destination w p v
unfolding move_money
move_money-returned e quote source destination w h = record {
  source_pos = ground arith;
  source_fits = ground arith;
  destination_pos = ground arith;
  destination_fits = ground arith;
  new_source_nonneg = ground arith;
  new_source_fits = ground arith;
  new_destination_fits = ground arith;
  after = ground arith;
  of_execution = ground arith;
  of_quote = ground arith;
  debited = ground arith;
  credited = ground arith;
  reported = ground arith;
}

-- The row of the key with the response.
abbrev pub completed_key : Request → Payload → ℕ → IdempotencyKey
completed_key q p time = record {
  request_hash = q.req_hash;
  response_payload = some p;
  status_code = some 200;
  completed_at = some time;
}

abbrev pub with_key : Request → Payload → World → World
with_key q p w =
    let t = set_key q.idempotency_key (completed_key q p (w.clock w.readings)) w.db.work in
    record w { readings = suc w.readings; db = record w.db { work = t } }

-- The world in which the money is moved: the clock was read once, and both rows are locked.
abbrev pub locked_world : Quote → World → World
locked_world quote w =
    let table =
      with_both quote.customer_id quote.source_currency quote.destination_currency
        w.db.work.balances in
    with_balances table (ticked w)

pub record Settled (q : Request) (quote : Quote) (w : World) (p : Payload) (v : World)
    : Type 0 where
  pub unexecuted : is_executed quote.id w.db.work.executions ≡ false
  pub in_time : w.clock w.readings < quote.expires_at
  pub covered :
      quote.source_amount ≤ℤ cash w.db.work.balances quote.customer_id quote.source_currency
  pub after_movement : World
  pub movement :
      Moved quote
        (cash w.db.work.balances quote.customer_id quote.source_currency)
        (cash w.db.work.balances quote.customer_id quote.destination_currency)
        (locked_world quote w)
        p
        after_movement
  pub stored : v ≡ with_key q p after_movement

-- The four states up to the movement, and what the locked balances are.
locked_world_lem :
    (quote : Quote) {w v1 v2 v3 v4 : World}
    → v1 ≡ w
    → v2 ≡ ticked v1
    → v3
      ≡ with_balances
          (with_both quote.customer_id quote.source_currency quote.destination_currency
            v2.db.work.balances)
          v2
    → v4 ≡ v3
    → v4 ≡ locked_world quote w
locked_world_lem quote s1 s2 s3 s4 = rw (s4, s3, s2, s1)

locked_cash :
    (c : ℕ) (k k' : Currency) {w v1 v2 : World} {locked : ℤ × ℤ}
    → v1 ≡ w
    → v2 ≡ ticked v1
    → locked ≡ (cash v2.db.work.balances c k, cash v2.db.work.balances c k')
    → locked ≡ (cash w.db.work.balances c k, cash w.db.work.balances c k')
locked_cash c k k' s1 s2 b = rw (b, s2, s1)

pub stored_lem :
    (q : Request) (payload : Payload) (v5 : World) {p : Payload} {v : World}
    → (do
      completed_at ← now
      write (set_key q.idempotency_key (completed_key q payload completed_at))
      pure payload)
        v5
      ≡ (returned p, v)
    → (p ≡ payload) × (v ≡ with_key q payload v5)
stored_lem q payload v5 h = ground arith

pub settle-returned :
    (e : Engine) (q : Request) (quote : Quote) (w : World) {p : Payload} {v : World}
    → settle e q quote w ≡ (returned p, v)
    → Settled q quote w p v
unfolding settle
settle-returned e q quote w h = bind-returned_elim (check_unexecuted e quote) _ w h λ _ v1 h1 r1.
    bind-returned_elim (check_expiry e quote) _ v1 r1 λ _ v2 h2 r2.
      bind-returned_elim (lock_balances quote) _ v2 r2 λ locked v3 h3 r3.
        bind-returned_elim (check_funds e quote locked.0) _ v3 r3 λ _ v4 h4 r4.
          bind-returned_elim (move_money e quote locked.0 locked.1) _ v4 r4 λ payload v5 h5 r5.
            let (s1, unexecuted) = check_unexecuted-returned e quote w h1 in
            let (s2, in_time) = check_expiry-returned e quote v1 h2 in
            let (s3, balances) = lock_balances-returned quote v2 h3 in
            let (s4, covered) = check_funds-returned e quote locked.0 v3 h4 in
            let held =
              locked_cash quote.customer_id quote.source_currency quote.destination_currency s1 s2
                balances in
            let (pe, stored) = stored_lem q payload v5 r5 in
            let moved = move_money-returned e quote locked.0 locked.1 v4 h5 in
            let start = locked_world_lem quote s1 s2 s3 s4 in
            record {
              unexecuted = unexecuted;
              in_time = rw s1 at in_time;
              covered = rw held at covered;
              after_movement = v5;
              movement = rw pe (rw start at (rw held at moved));
              stored = rw pe stored;
            }
