-- ===== src/Executions/Correct.antt =====
-- `execute_quote` does what `Transfer` says when it returns a new execution.
use umba_fx_engine.Prelude.{
  ℕ, ◌<◌, ◌≡◌, refl, sym, subst, Bool, true, false, Option, none, some, arith, find?, ◌==◌,
  Bool-cases, inl, inr, ◌&&◌, str_eq, if◌then◌else◌,
}
use umba_fx_engine.Prelude.Int.{ℤ, ◌≤ℤ◌}
use umba_fx_engine.Money.{Currency, same}
use umba_fx_engine.Schema.{Tables, Quote, Payload, IdempotencyKey}
use umba_fx_engine.Schema.Columns.{numeric_fits}
use umba_fx_engine.Session.{World, returned, Action, ◌>>=◌}
use umba_fx_engine.Session.Laws.{bind-returned_elim}
use umba_fx_engine.Session.Backend.{Engine, IsTransactional}
use umba_fx_engine.Repositories.Balances.{is_row, BalanceTable}
use umba_fx_engine.Repositories.Balances.Laws.{cash}
use umba_fx_engine.Repositories.Balances.Range.{InRange}
use umba_fx_engine.Executions.{
  claim_key, execute_once, first_use, stored_response, replay, check_same_request, on_existing_key,
  require_key, execute_quote,
}
use umba_fx_engine.Executions.Rejections.{Request, guarded}
use umba_fx_engine.Executions.Movement.{settle, publish}
use umba_fx_engine.Executions.Checks.{executions_endpoint, set_key, lock_quote, is_executed}
use umba_fx_engine.Executions.Steps.{lock_quote-returned, ticked, with_both}
use umba_fx_engine.Executions.Effects.{
  new_source, new_destination, Settled, settle-returned, Moved, moved, with_key,
}
use umba_fx_engine.Executions.Spec.{
  held, new_source_lem, new_destination_lem, moved_table, cash-moved_table, cash-with_both,
  Transfer,
}

pub guarded-returned :
    {A : Type 0} (e : Engine) (q : Request) (c : Option ℕ) (m : Action A) (w : World) {a : A}
    {v : World}
    → guarded e q c m w ≡ (returned a, v)
    → m w ≡ (returned a, v)
unfolding guarded
guarded-returned e q c m w h = ground arith

-- The row of a key whose request is under way.
abbrev pub pending_key : Request → IdempotencyKey
pending_key q = record {
  request_hash = q.req_hash;
  response_payload = none;
  status_code = none;
  completed_at = none;
}

abbrev pub claimed : Request → World → World
claimed q w = record w {
  db = record w.db { work = set_key q.idempotency_key (pending_key q) w.db.work };
}

pub claim_key-returned :
    (e : Engine) (q : Request) (w : World) {a : Unit {0}} {v : World}
    → claim_key e q w ≡ (returned a, v)
    → (v ≡ claimed q w) × (w.db.work.keys executions_endpoint q.idempotency_key ≡ none)
unfolding claim_key
claim_key-returned e q w h = ground arith

pub publish-returned :
    {e : Engine}
    → IsTransactional e
    → (q : Request) (quote : Quote) (p : Payload) (w : World) {a : Payload × Bool} {v : World}
    → publish e q quote p w ≡ (returned a, v)
    → (a ≡ (p, false)) × (v.db.committed ≡ w.db.work) × (v.db.work ≡ w.db.work)
unfolding publish
publish-returned law q quote p w h = ground (arith, law.commit_lem w.db)

held-fits :
    (quote : Quote) (source destination : ℤ)
    → numeric_fits (new_source quote source) ≡ true
    → numeric_fits destination ≡ true
    → numeric_fits (held quote source destination) ≡ true
held-fits quote source destination h k =
    elim (Bool-cases (same quote.source_currency quote.destination_currency)) [
      | inl one ↦ rw one h
      | inr two ↦ rw two k
    ]

fits-moved_table :
    (quote : Quote) (table : BalanceTable) (c : ℕ) (k : Currency)
    → InRange table
    → let source = cash table quote.customer_id quote.source_currency in
      let destination = cash table quote.customer_id quote.destination_currency in
      numeric_fits (new_source quote source) ≡ true
      → numeric_fits (new_destination quote source destination) ≡ true
      → numeric_fits (cash (moved_table quote table) c k) ≡ true
fits-moved_table quote table c k range h i =
    let owner = quote.customer_id in
    elim (Bool-cases (is_row owner quote.destination_currency c k)) [
      | inl here ↦ rw here i
      | inr elsewhere ↦ elim (Bool-cases (is_row owner quote.source_currency c k)) [
        | inl source_row ↦ rw (elsewhere, source_row) h
        | inr other ↦
            rw
              (
                elsewhere,
                other,
                cash-with_both owner quote.source_currency quote.destination_currency table c k,
              )
              (range c k)
      ]
    ]

-- The tables as a session sees them in which the key is claimed and both balances have a row.
abbrev pub prepared_tables : Request → Quote → Tables → Tables
prepared_tables q quote t = record (set_key q.idempotency_key (pending_key q) t) {
  balances =
      with_both quote.customer_id quote.source_currency quote.destination_currency t.balances;
}

abbrev pub prepared_world : Request → Quote → Tables → World → World
prepared_world q quote t w = record w { db = record w.db { work = prepared_tables q quote t } }

-- The tables that the main block leaves to the commit.
abbrev settled_tables : Request → Quote → Payload → Tables → World → Tables
settled_tables q quote p t w =
    let source = cash t.balances quote.customer_id quote.source_currency in
    let destination = cash t.balances quote.customer_id quote.destination_currency in
    (with_key q p (
      moved quote (new_source quote source) (new_destination quote source destination)
        (prepared_world q quote t w))).db.work

keys-completed :
    (mine : Bool) (a b : IdempotencyKey) (old : Option IdempotencyKey)
    → (if mine then some a else if mine then some b else old) ≡ (if mine then some a else old)
keys-completed true a b old = refl
keys-completed false a b old = refl

-- What the movement leaves, on tables that pass the checks, is a transfer.
pub Moved-Transfer :
    (q : Request) (quote : Quote) (t : Tables) (time : ℕ) (w : World) (p : Payload) {u v : World}
    → find? (λ (x : Quote). x.id == q.quote_id) t.quotes ≡ some quote
    → InRange t.balances
    → t.keys executions_endpoint q.idempotency_key ≡ none
    → is_executed quote.id t.executions ≡ false
    → time < quote.expires_at
    → quote.source_amount ≤ℤ cash t.balances quote.customer_id quote.source_currency
    → Moved quote
        (cash t.balances quote.customer_id quote.source_currency)
        (cash t.balances quote.customer_id quote.destination_currency)
        (prepared_world q quote t w)
        p
        u
    → v ≡ with_key q p u
    → Transfer q time t p v.db.work
Moved-Transfer q quote t time w p {u} {v} found range unclaimed unexecuted in_time covered m
      stored =
    subst (λ after. Transfer q time t p after) (sym tables) transfer
  where
    source : ℤ
    source = cash t.balances quote.customer_id quote.source_currency

    destination : ℤ
    destination = cash t.balances quote.customer_id quote.destination_currency

    tables : v.db.work ≡ settled_tables q quote p t w
    tables = rw (stored, m.after)

    transfer : Transfer q time t p (settled_tables q quote p t w)
    transfer =
        let lowered =
          new_source_lem quote source (range quote.customer_id quote.source_currency)
            m.source_fits in
        let raised_to =
          new_destination_lem quote source destination
            (held-fits quote source destination m.new_source_fits
              (range quote.customer_id quote.destination_currency))
            m.destination_fits in
        record {
          quote = quote;
          found = found;
          unexecuted = unexecuted;
          in_time = in_time;
          covered = covered;
          source_pos = m.source_pos;
          destination_pos = m.destination_pos;
          balances = λ c k. cash-moved_table quote t.balances c k lowered raised_to;
          fits = λ c k.
              fits-moved_table quote t.balances c k range m.new_source_fits m.new_destination_fits;
          executions = rw m.of_execution;
          entries = rw m.of_execution;
          unclaimed = unclaimed;
          completed_at = w.clock w.readings;
          keys = λ endpoint key.
              keys-completed (str_eq endpoint executions_endpoint && str_eq key q.idempotency_key) _
                _ _;
          others = refl;
          of_quote = m.of_quote;
          debited = m.debited;
          credited = m.credited;
        }

Settled-Transfer :
    (q : Request) (quote : Quote) (w : World) (p : Payload) {v : World}
    → find? (λ (x : Quote). x.id == q.quote_id) w.db.work.quotes ≡ some quote
    → InRange w.db.work.balances
    → w.db.work.keys executions_endpoint q.idempotency_key ≡ none
    → Settled q quote (claimed q w) p v
    → Transfer q (w.clock w.readings) w.db.work p v.db.work
Settled-Transfer q quote w p found range unclaimed s =
    Moved-Transfer q quote w.db.work (w.clock w.readings) (ticked w) p found range unclaimed
      s.unexecuted s.in_time s.covered s.movement s.stored

pub check_same_request-returned :
    (q : Request) (row : IdempotencyKey) (w : World) {a : Unit {0}} {v : World}
    → check_same_request q row w ≡ (returned a, v)
    → v ≡ w
unfolding check_same_request
check_same_request-returned q row w h = ground arith

pub require_key-returned :
    (q : Request) (w : World) {a : Unit {0}} {v : World} → require_key q w ≡ (returned a, v) → v ≡ w
unfolding require_key
require_key-returned q w h = ground arith

module _ {e : Engine} (law : IsTransactional e) where
  -- The main block, on the tables with the key claimed.
  execute_once-Transfer :
      (q : Request) (w : World) {r : Payload × Bool} {v : World}
      → execute_once e q (claimed q w) ≡ (returned r, v)
      → InRange w.db.work.balances
      → w.db.work.keys executions_endpoint q.idempotency_key ≡ none
      → (r.1 ≡ false) × Transfer q (w.clock w.readings) w.db.work r.0 v.db.committed
  unfolding execute_once
  execute_once-Transfer q w {r} {v} h range unclaimed =
      bind-returned_elim (guarded e q none (lock_quote e q.quote_id)) _ (claimed q w) h
        λ quote v1 h1 r1.
          let (s1, found) =
            lock_quote-returned e q.quote_id (claimed q w)
              (guarded-returned e q none (lock_quote e q.quote_id) (claimed q w) h1) in
          bind-returned_elim (settle e q quote) (publish e q quote) v1
            (guarded-returned e q (some quote.customer_id) (settle e q quote >>= publish e q quote)
              v1 r1)
            λ p v2 h2 r2.
              let (re, committed, _) = publish-returned law q quote p v2 r2 in
              let settled : Settled q quote (claimed q w) p v2 =
                settle-returned e q quote (claimed q w) (rw s1 at h2) in
              rw (re, committed) (refl, Settled-Transfer q quote w p found range unclaimed settled)

  pub first_use-Transfer :
      (q : Request) (w : World) {r : Payload × Bool} {v : World}
      → first_use e q w ≡ (returned r, v)
      → InRange w.db.work.balances
      → (r.1 ≡ false) × Transfer q (w.clock w.readings) w.db.work r.0 v.db.committed
  unfolding first_use
  first_use-Transfer q w h range = bind-returned_elim (claim_key e q) _ w h λ _ v1 h1 r1.
      let (s1, unclaimed) = claim_key-returned e q w h1 in
      execute_once-Transfer q w (rw s1 at r1) range unclaimed

  replay-Transfer :
      (q : Request) (stored : Option Payload) (w : World) {p : Payload} {v : World}
      → replay e q stored w ≡ (returned (p, false), v)
      → InRange w.db.work.balances
      → Transfer q (w.clock w.readings) w.db.work p v.db.committed
  unfolding replay
  replay-Transfer q none w h range = (first_use-Transfer q w h range).1
  replay-Transfer q (some old) w h range = cc

  on_existing_key-Transfer :
      (q : Request) (row : Option IdempotencyKey) (w : World) {p : Payload} {v : World}
      → on_existing_key e q row w ≡ (returned (p, false), v)
      → InRange w.db.work.balances
      → Transfer q (w.clock w.readings) w.db.work p v.db.committed
  unfolding on_existing_key
  on_existing_key-Transfer q none w h range = (first_use-Transfer q w h range).1
  on_existing_key-Transfer q (some row) w h range =
      bind-returned_elim (check_same_request q row) _ w h λ _ v1 h1 r1.
        replay-Transfer q (stored_response row.completed_at row.response_payload) w
          (rw (check_same_request-returned q row w h1) at r1) range

  -- When a call on balances that fit their column returns a new execution, what it has committed is
  -- exactly one transfer on the tables that it found.
  pub execute_quote-Transfer :
      (q : Request) (w : World) {p : Payload} {v : World}
      → execute_quote e q w ≡ (returned (p, false), v)
      → InRange w.db.work.balances
      → Transfer q (w.clock w.readings) w.db.work p v.db.committed
  unfolding execute_quote
  execute_quote-Transfer q w h range = bind-returned_elim (require_key q) _ w h λ _ v1 h1 r1.
      on_existing_key-Transfer q (w.db.work.keys executions_endpoint q.idempotency_key) w
        (rw (require_key-returned q w h1) at r1) range
