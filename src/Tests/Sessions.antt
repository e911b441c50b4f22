-- ===== src/Tests/Sessions.antt =====
-- Two calls of `execute_quote` for one quote, under two keys, that run at the same time.
use umba_fx_engine.Prelude.{
  ℕ, zero, suc, ◌≤◌, ◌<◌, ◌≡◌, ◌≢◌, refl, inl, inr, Bool, true, false, some, ◌==◌, arith,
  if◌then◌else◌, eq_iff, String, Option, List,
}
use umba_fx_engine.Schema.{Payload}
use umba_fx_engine.Settings.{default_settings}
use umba_fx_engine.Prelude.Int.{pos}
use umba_fx_engine.Session.{returned, raised}
use umba_fx_engine.Session.Backend.{plain_engine, plain_engine-IsTransactional}
use umba_fx_engine.Errors.{api, conflict}
use umba_fx_engine.Executions.Rejections.{Request, error_quote_already_executed}
use umba_fx_engine.Executions.Checks.{check_unexecuted, check_expiry, check_funds}
use umba_fx_engine.Executions.Movement.{move_money, final_balances}
use umba_fx_engine.Money.{Currency, round_money}
use umba_fx_engine.Money.Arithmetic.{add, sub}
use umba_fx_engine.System.Sound.{IsSound}
use umba_fx_engine.Concurrency.Phases.{
  Phase, fresh, looked, keyed, quoted, checked, opened, prepared, paying_first, paying_both, over,
  Lock, row_lock, balance_lock, held_locks, IsHeld, wanted, advance,
}
use umba_fx_engine.Concurrency.Interleaving.{Shared, MayGo, turn, Interleaved, none_yet, later, go}
use umba_fx_engine.Concurrency.Safety.{Interleaved-IsSound, concurrent_execute_once}
use umba_fx_engine.Concurrency.Serial.{Serial, AreWinners, Interleaved-Serial}
use umba_fx_engine.Concurrency.Progress.{IsOver}
use umba_fx_engine.Concurrency.Termination.{no_deadlock, calls_end}
use umba_fx_engine.Concurrency.Views.{seen}
use umba_fx_engine.Concurrency.Protocol.{Moves, IsChecked}
use umba_fx_engine.Concurrency.Follows.{landed, advance-Moves}
use umba_fx_engine.Concurrency.Solo.{turns, turns-eq-execute_quote}
use umba_fx_engine.Executions.{execute_quote}
use umba_fx_engine.Tests.Worlds.{
  dollars-InRange, small_world, small_request, small_tables, small_tables-IsSound, dollar_quote,
}
use umba_fx_engine.Tests.Transfers.{small_payload, other_request}

-- Session 0 has the key "key-1", the others "key-2".
abbrev requests : ℕ → Request
requests i = if i == 0 then small_request else other_request

abbrev start : Shared
start = record { world = small_world; phases = λ i. fresh }

-- Session 0 has locked the quote, and session 1 waits for it.
abbrev waiting : Shared
waiting =
    let e = plain_engine in
    turn e requests 1
      (turn e requests 1 (turn e requests 0 (turn e requests 0 (turn e requests 0 start))))

phases_waiting : (waiting.phases 0 ≡ quoted dollar_quote) × (waiting.phases 1 ≡ keyed)
unfolding turn advance
phases_waiting = (refl, refl)

-- Session 0 commits, and session 1 then finds the quote executed.
abbrev settled : Shared
settled =
    let e = plain_engine in
    turn e requests 0 (
      turn e requests 0
        (turn e requests 0 (turn e requests 0 (turn e requests 0 (turn e requests 0 waiting)))))

abbrev refused : Shared
refused = let e = plain_engine in turn e requests 1 (turn e requests 1 settled)

phases_refused :
    (refused.phases 0 ≡ over (returned (small_payload, false)))
    × (refused.phases 1
        ≡ over (
            raised
              (api (conflict error_quote_already_executed "Quote has already been executed."))))
unfolding turn advance check_unexecuted check_expiry check_funds move_money round_money sub add
    final_balances
phases_refused = (refl, refl)

-- A state that the two sessions have led to.
record Reached (s : Shared) : Type 0 where
  run : Interleaved plain_engine default_settings requests start s
  others : (j : ℕ) → s.phases (suc (suc j)) ≡ fresh

turn-others :
    (i : ℕ) (s : Shared)
    → i < 2
    → ((j : ℕ) → s.phases (suc (suc j)) ≡ fresh)
    → (j : ℕ) → (turn plain_engine requests i s).phases (suc (suc j)) ≡ fresh
unfolding turn
turn-others i s below others j = ground (arith, others j)

module _ {s : Shared} (r : Reached s) (a b : Phase) (at_first : s.phases 0 ≡ a)
    (at_second : s.phases 1 ≡ b) where
  go_first :
      ((l : Lock) → wanted small_request a ≡ some l → ¬ IsHeld l (held_locks other_request b))
      → Reached (turn plain_engine requests 0 s)
  go_first free = record {
    run = later r.run (go 0 may);
    others = turn-others 0 s (omega arith) r.others;
  }
    where
      may : MayGo requests s 0
      may l w zero h = refl
      may l w (suc zero) h = absurd (free l (rw at_first at w) (rw at_second at h))
      may l w (suc (suc j)) h = absurd (rw (r.others j) at h)

  go_second :
      ((l : Lock) → wanted other_request b ≡ some l → ¬ IsHeld l (held_locks small_request a))
      → Reached (turn plain_engine requests 1 s)
  go_second free = record {
    run = later r.run (go 1 may);
    others = turn-others 1 s (omega arith) r.others;
  }
    where
      may : MayGo requests s 1
      may l w zero h = absurd (free l (rw at_second at w) (rw at_first at h))
      may l w (suc zero) h = refl
      may l w (suc (suc j)) h = absurd (rw (r.others j) at h)

two_keys : ◌≢◌ {A = String} "key-2" "key-1"
two_keys h = ground (arith, eq_iff "key-2" "key-1")

waiting-Reached : Reached waiting
unfolding turn advance
waiting-Reached =
    let r0 : Reached start = record { run = none_yet; others = λ j. refl } in
    let r1 = go_first r0 fresh fresh refl refl (λ l w h. h) in
    let r2 = go_first r1 looked fresh refl refl (λ l w h. h) in
    let r3 = go_first r2 keyed fresh refl refl (λ l w h. h) in
    let r4 = go_second r3 (quoted dollar_quote) fresh refl refl (λ l w h. cc) in
    go_second r4 (quoted dollar_quote) looked refl refl
      (λ l w h. ground (arith, eq_iff "key-2" "key-1"))

-- The session that holds only its key is not in the way of a balance.
balance_free :
    (c : ℕ) (k : Currency) (l : Lock)
    → ◌≡◌ {A = Option Lock} (some (balance_lock c k)) (some l)
    → ¬ IsHeld l (held_locks other_request keyed)
balance_free c k l w (inl e) = cc
balance_free c k l w (inr e) = e

row_free :
    (c : ℕ) (k : Currency) (l : Lock)
    → ◌≡◌ {A = Option Lock} (some (row_lock c k)) (some l)
    → ¬ IsHeld l (held_locks other_request keyed)
row_free c k l w (inl e) = cc
row_free c k l w (inr e) = e

-- Session 0 inserts the row of the shillings, and finds that of the dollars.
abbrev own : Bool × Bool
own = (true, false)

refused-Reached : Reached refused
unfolding turn advance check_unexecuted check_expiry check_funds move_money round_money sub add
    final_balances
refused-Reached =
    let r1 = go_first waiting-Reached (quoted dollar_quote) keyed refl refl (λ l w h. cc) in
    let r2 = go_first r1 (checked dollar_quote) keyed refl refl (row_free _ _) in
    let r3 = go_first r2 (opened dollar_quote true) keyed refl refl (row_free _ _) in
    let r4 = go_first r3 (prepared dollar_quote own) keyed refl refl (balance_free _ _) in
    let r5 =
      go_first r4 (paying_first dollar_quote own (pos 0)) keyed refl refl (balance_free _ _) in
    let r6 =
      go_first r5 (paying_both dollar_quote own (pos 0) (pos 25_000)) keyed refl refl
        (λ l w h. cc) in
    let r7 = go_second r6 (over (returned (small_payload, false))) keyed refl refl (λ l w h. h) in
    go_second r7 (over (returned (small_payload, false))) (quoted dollar_quote) refl refl
      (λ l w h. h)

begun : (n : ℕ) → 2 ≤ n → waiting.phases n ≡ fresh
begun zero h = absurd (omega arith)
begun (suc zero) h = absurd (omega arith)
begun (suc (suc j)) h = waiting-Reached.others j

Interleaved-IsSound_example : IsSound refused.world.db.committed
Interleaved-IsSound_example =
    Interleaved-IsSound plain_engine-IsTransactional default_settings {requests = requests}
      (λ i. refl) small_tables-IsSound refused-Reached.run

concurrent_execute_once_example : ◌≡◌ {A = ℕ} 0 0
unfolding turn advance check_unexecuted check_expiry check_funds move_money round_money sub add
    final_balances
concurrent_execute_once_example =
    concurrent_execute_once plain_engine-IsTransactional default_settings {requests = requests}
      (λ i. refl) small_tables-IsSound refused-Reached.run 0 0 small_payload small_payload refl refl
      refl

Interleaved-Serial_example :
    (calls : List (ℕ × Payload)) × Serial plain_engine default_settings requests small_tables calls
      refused.world.db.committed
    × AreWinners refused.phases calls
Interleaved-Serial_example =
    Interleaved-Serial plain_engine-IsTransactional default_settings {requests = requests}
      (λ i. refl) small_tables-IsSound refused-Reached.run

running : ¬ IsOver waiting 1
unfolding turn advance
running (r, e) = cc

no_deadlock_example : (j : ℕ) × (j < 2) × ¬ IsOver waiting j × MayGo requests waiting j
no_deadlock_example =
    no_deadlock plain_engine-IsTransactional default_settings {requests = requests} (λ i. refl)
      small_tables-IsSound waiting-Reached.run 2 1 begun (omega arith) running

calls_end_example :
    (u : Shared) × Interleaved plain_engine default_settings requests start u
    × ((i : ℕ) → i < 2 → IsOver u i)
calls_end_example =
    calls_end plain_engine-IsTransactional default_settings {requests = requests} (λ i. refl)
      small_tables-IsSound waiting-Reached.run 2 begun

small-IsChecked : IsChecked small_request dollar_quote small_tables
small-IsChecked = record {
  unclaimed = refl;
  found = refl;
  unexecuted = refl;
  time = 1_000;
  in_time = omega arith;
}

advance-Moves_example :
    let phase = paying_both dollar_quote own (pos 0) (pos 25_000) in
    let (r, v) = advance plain_engine small_request phase (seen small_request phase small_world) in
    Moves small_request small_tables phase (landed r) v.db.committed
advance-Moves_example =
    advance-Moves plain_engine-IsTransactional small_request small_world
      (paying_both dollar_quote own (pos 0) (pos 25_000)) dollars-InRange
      (small-IsChecked, refl, refl)

turns-eq-execute_quote_example :
    let v = turns plain_engine requests 0 9 start in
    let (r, u) = execute_quote plain_engine small_request small_world in
    (v.phases 0 ≡ over r) × (v.world.db.committed ≡ u.db.committed)
turns-eq-execute_quote_example =
    turns-eq-execute_quote plain_engine-IsTransactional requests 0 start refl small_tables-IsSound
