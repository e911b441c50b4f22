-- ===== src/Concurrency/Termination.antt =====
-- Every call of `execute_quote` ends: it has nine phases, and while one is not over, one can go on.
use umba_fx_engine.Prelude.{
  ℕ, zero, suc, ◌+◌, ◌≤◌, ◌<◌, ◌≡◌, refl, subst, arith, Bool, ◌==◌, Bool-cases, inl, inr, ◌⊎◌,
}
use native.Mathlib.Decide.{dec_lt}
use umba_fx_engine.Schema.{Tables, Payload}
use umba_fx_engine.Settings.{Settings}
use umba_fx_engine.Session.{Outcome}
use umba_fx_engine.Session.Backend.{Engine, IsTransactional}
use umba_fx_engine.Executions.Rejections.{Request}
use umba_fx_engine.System.Sound.{IsSound}
use umba_fx_engine.Concurrency.Phases.{
  Phase, fresh, looked, keyed, quoted, checked, opened, prepared, paying_first, paying_both, over,
}
use umba_fx_engine.Concurrency.Follows.{advance-Moves}
use umba_fx_engine.Concurrency.Protocol.{
  Moves, look, replay, claim, find, check, open_first, open_second, lock_first, lock_second,
  transfer, refuse, stay,
}
use umba_fx_engine.Concurrency.Interleaving.{
  Shared, update, MayGo, turn, go, Interleaved, later, IsStart,
}
use umba_fx_engine.Concurrency.Invariant.{Inv}
use umba_fx_engine.Concurrency.Kept.{Interleaved-Inv, turn-Moves}
use umba_fx_engine.Concurrency.Progress.{Begun, IsOver, no_deadlock_from}

-- The phases that a call still has before it, at most.
abbrev pub remaining : Phase → ℕ
remaining fresh = 9
remaining looked = 8
remaining keyed = 7
remaining (quoted quote) = 6
remaining (checked quote) = 5
remaining (opened quote a) = 4
remaining (prepared quote own) = 3
remaining (paying_first quote own first) = 2
remaining (paying_both quote own first second) = 1
remaining (over r) = 0

pub remaining-cases : (phase : Phase) → (remaining phase ≡ 0) ⊎ (0 < remaining phase)
remaining-cases phase = ground arith

pub zero-IsOver :
    (phase : Phase) → remaining phase ≡ 0 → (r : Outcome (Payload × Bool)) × (phase ≡ over r)
zero-IsOver (over r) h = (r, refl)
zero-IsOver fresh h = absurd (omega arith)
zero-IsOver looked h = absurd (omega arith)
zero-IsOver keyed h = absurd (omega arith)
zero-IsOver (quoted quote) h = absurd (omega arith)
zero-IsOver (checked quote) h = absurd (omega arith)
zero-IsOver (opened quote a) h = absurd (omega arith)
zero-IsOver (prepared quote own) h = absurd (omega arith)
zero-IsOver (paying_first quote own first) h = absurd (omega arith)
zero-IsOver (paying_both quote own first second) h = absurd (omega arith)

running-remaining :
    (phase : Phase) → ¬ ((r : Outcome (Payload × Bool)) × (phase ≡ over r)) → 0 < remaining phase
running-remaining phase running = elim (remaining-cases phase) [
  | inl done ↦ absurd (running (zero-IsOver phase done))
  | inr more ↦ more
]

remaining-running :
    (phase : Phase) → 0 < remaining phase → ¬ ((r : Outcome (Payload × Bool)) × (phase ≡ over r))
remaining-running phase more (r, e) = let small = subst (λ p. 0 < remaining p) e more in omega arith

pub Moves-remaining :
    {q : Request} {t u : Tables} {phase next : Phase}
    → Moves q t phase next u
    → 0 < remaining phase
    → remaining next < remaining phase
Moves-remaining look h = omega arith
Moves-remaining (replay r) h = omega arith
Moves-remaining (claim g) h = omega arith
Moves-remaining (find g) h = omega arith
Moves-remaining (check time g g') h = omega arith
Moves-remaining (open_first g) h = omega arith
Moves-remaining (open_second g) h = omega arith
Moves-remaining (lock_first g) h = omega arith
Moves-remaining (lock_second g) h = omega arith
Moves-remaining (transfer time x) h = omega arith
Moves-remaining (refuse g) h = h
Moves-remaining stay h = absurd (omega arith)

-- The phases that the first `n` calls have before them.
abbrev pub total : ℕ → (ℕ → Phase) → ℕ
total zero phases = 0
total (suc n) phases = total n phases + remaining (phases n)

total-above :
    (n i : ℕ) (phases : ℕ → Phase) (next : Phase)
    → n ≤ i
    → total n (update phases i next) ≡ total n phases
total-above zero i phases next h = refl
total-above (suc n) i phases next h = ground (arith, total-above n i phases next (omega arith))

total-update :
    (n i : ℕ) (phases : ℕ → Phase) (next : Phase)
    → i < n
    → remaining next < remaining (phases i)
    → total n (update phases i next) < total n phases
total-update zero i phases next h less = absurd (omega arith)
total-update (suc n) i phases next h less = elim (dec_lt i n) [
  | yes below ↦ ground (arith, total-update n i phases next below less)
  | no last ↦
      let e : i ≡ n = omega arith in ground (arith, total-above n i phases next (omega arith))
]

total-zero :
    (n : ℕ) (phases : ℕ → Phase) → total n phases ≡ 0 → (i : ℕ) → i < n → remaining (phases i) ≡ 0
total-zero zero phases h i below = absurd (omega arith)
total-zero (suc n) phases h i below = elim (dec_lt i n) [
  | yes earlier ↦ total-zero n phases (omega arith) i earlier
  | no last ↦ let e : i ≡ n = omega arith in rw e (omega arith)
]

-- Some call among the first `n` that is not over, if there is one.
some_running :
    (n : ℕ) (phases : ℕ → Phase)
    → (total n phases ≡ 0) ⊎ ((i : ℕ) × (i < n) × (0 < remaining (phases i)))
some_running zero phases = inl refl
some_running (suc n) phases = elim (remaining-cases (phases n)) [
  | inr more ↦ inr (n, omega arith, more)
  | inl done ↦ elim (some_running n phases) [
    | inl rest ↦ inl (omega arith)
    | inr (i, below, more) ↦ inr (i, omega arith, more)
  ]
]

turn-Begun :
    (e : Engine) (requests : ℕ → Request) (n i : ℕ) (s : Shared)
    → i < n
    → Begun s n
    → Begun (turn e requests i s) n
unfolding turn
turn-Begun e requests n i s below begun j above = elim (Bool-cases (j == i)) [
  | inl same ↦ absurd (let e : j ≡ i = ground arith in omega arith)
  | inr other ↦ rw other (begun j above)
]

module _ {e : Engine} (law : IsTransactional e) (settings : Settings) {requests : ℕ → Request} where
  turn-total :
      (n i : ℕ) {s : Shared}
      → Inv requests s
      → i < n
      → 0 < remaining (s.phases i)
      → total n (turn e requests i s).phases < total n s.phases
  unfolding turn
  turn-total n i {s} inv below more = total-update n i s.phases _ below (
      Moves-remaining
        (advance-Moves law (requests i) s.world (s.phases i) inv.sound.in_range (inv.relies i))
        more)

  module _ {s : Shared} (start : IsStart s) (sound : IsSound s.world.db.committed) where
    -- A call that is not over has fewer phases before it after each of its steps, whatever the other
    -- sessions have done.
    pub turn_shortens :
        {v : Shared}
        → Interleaved e settings requests s v
        → (i : ℕ) → 0 < remaining (v.phases i)
        → remaining ((turn e requests i v).phases i) < remaining (v.phases i)
    turn_shortens run i =
        Moves-remaining (turn-Moves law settings i (Interleaved-Inv law settings start sound run))

    -- When `n` calls have begun and one of them is not over, some call that is not over does not have to
    -- wait for a lock: there is no deadlock.
    pub no_deadlock :
        {v : Shared}
        → Interleaved e settings requests s v
        → (n i : ℕ) → Begun v n
        → i < n
        → ¬ IsOver v i
        → (j : ℕ) × (j < n) × ¬ IsOver v j × MayGo requests v j
    no_deadlock run n i begun =
        no_deadlock_from (Interleaved-Inv law settings start sound run) n begun i

    finish :
        (bound n : ℕ) {v : Shared}
        → Interleaved e settings requests s v
        → Begun v n
        → total n v.phases ≤ bound
        → (u : Shared) × Interleaved e settings requests s u × ((i : ℕ) → i < n → IsOver u i)
    finish zero n {v} run begun enough =
        (v, run, λ i below. zero-IsOver (v.phases i) (total-zero n v.phases (omega arith) i below))
    finish (suc bound) n {v} run begun enough = elim (some_running n v.phases) [
      | inl done ↦
          (v, run, λ i below. zero-IsOver (v.phases i) (total-zero n v.phases done i below))
      | inr (i, below, more) ↦
          let inv = Interleaved-Inv law settings start sound run in
          let (j, below', running, may) =
            no_deadlock run n i begun below (remaining-running (v.phases i) more) in
          let less = turn-total n j inv below' (running-remaining (v.phases j) running) in
          finish bound n (later run (go j may)) (turn-Begun e requests n j v below' begun)
            (omega arith)
    ]

    -- From every state that is reached, when `n` calls have begun, the sessions can go on until all of
    -- these calls are over, each with an answer or an exception.
    pub calls_end :
        {v : Shared}
        → Interleaved e settings requests s v
        → (n : ℕ) → Begun v n
        → (u : Shared) × Interleaved e settings requests s u × ((i : ℕ) → i < n → IsOver u i)
    calls_end {v} run n begun = finish (total n v.phases) n run begun (omega arith)
