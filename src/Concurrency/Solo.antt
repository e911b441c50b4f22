-- ===== src/Concurrency/Solo.antt =====
-- A session that is given all the turns does what `execute_quote` does.
use umba_fx_engine.Prelude.{
  ℕ, zero, suc, ◌≤◌, ◌≡◌, refl, sym, ap, ◌∙◌, subst, Bool, arith, inl, inr,
}
use umba_fx_engine.Schema.{Tables, Payload}
use umba_fx_engine.Session.{World, Outcome, returned, raised, resume}
use umba_fx_engine.Session.Backend.{Engine, IsTransactional}
use umba_fx_engine.Executions.{execute_quote}
use umba_fx_engine.Executions.Rejections.{Request}
use umba_fx_engine.System.Sound.{IsSound}
use umba_fx_engine.Concurrency.Phases.{Phase, fresh, over, advance}
use umba_fx_engine.Concurrency.Views.{seen}
use umba_fx_engine.Concurrency.Protocol.{
  Relies, Moves, look, replay, claim, find, check, open_first, open_second, lock_first, lock_second,
  transfer, refuse, stay,
}
use umba_fx_engine.Concurrency.Follows.{landed, advance-Moves, advance-view}
use umba_fx_engine.Concurrency.Moves.{Moves-IsSound, Moves-Relies}
use umba_fx_engine.Concurrency.Alone.{rest, rest-suc, advances-eq-execute_quote}
use umba_fx_engine.Concurrency.Interleaving.{Shared, update, turn}
use umba_fx_engine.Concurrency.Termination.{
  remaining, remaining-cases, zero-IsOver, Moves-remaining,
}

-- `n` turns of session `i`, and none of another.
abbrev pub turns : Engine → (ℕ → Request) → ℕ → ℕ → Shared → Shared
turns e requests i zero s = s
turns e requests i (suc n) s = turns e requests i n (turn e requests i s)

-- The same for one session by itself.
abbrev solo : Engine → Request → ℕ → Phase → World → Phase × World
solo e q zero phase w = (phase, w)
solo e q (suc n) phase w =
    let (r, v) = advance e q phase (seen q phase w) in solo e q n (landed r) v

turns-solo :
    (e : Engine) (requests : ℕ → Request) (i n : ℕ) (s : Shared)
    → let v = turns e requests i n s in
      let (phase, w) = solo e (requests i) n (s.phases i) s.world in
      (v.phases i ≡ phase) × (v.world ≡ w)
unfolding turn
turns-solo e requests i zero s = (refl, refl)
turns-solo e requests i (suc n) s =
    let phase = s.phases i in
    let (r, w) = advance e (requests i) phase (seen (requests i) phase s.world) in
    let now : update s.phases i (landed r) i ≡ landed r = ground arith in
    rw now at (turns-solo e requests i n (turn e requests i s))

solo-over :
    (e : Engine) (q : Request) (n : ℕ) (r : Outcome (Payload × Bool)) (w : World)
    → let (phase, v) = solo e q n (over r) w in (phase ≡ over r) × (v.db.committed ≡ w.db.committed)
unfolding advance
solo-over e q zero r w = (refl, refl)
solo-over e q (suc n) r w = solo-over e q n r (seen q (over r) w)

Moves-over :
    {q : Request} {t u : Tables} {phase next : Phase}
    → Moves q t phase next u
    → remaining phase ≡ 0
    → remaining next ≡ 0
Moves-over stay h = refl
Moves-over (refuse g) h = refl
Moves-over (replay r) h = refl
Moves-over (transfer time x) h = refl
Moves-over look h = absurd (omega arith)
Moves-over (claim g) h = absurd (omega arith)
Moves-over (find g) h = absurd (omega arith)
Moves-over (check time g g') h = absurd (omega arith)
Moves-over (open_first g) h = absurd (omega arith)
Moves-over (open_second g) h = absurd (omega arith)
Moves-over (lock_first g) h = absurd (omega arith)
Moves-over (lock_second g) h = absurd (omega arith)

next-remaining :
    {q : Request} {t u : Tables} {phase next : Phase} (n : ℕ)
    → Moves q t phase next u
    → remaining phase ≤ suc n
    → remaining next ≤ n
next-remaining {phase} n move h = elim (remaining-cases phase) [
  | inl done ↦ let e = Moves-over move done in omega arith
  | inr more ↦ let less = Moves-remaining move more in omega arith
]

module _ {e : Engine} (law : IsTransactional e) (q : Request) where
  abbrev Agrees : ℕ → Phase × World → Outcome (Payload × Bool) × World → Type 0
  Agrees n (phase, v) (r, u) = (phase ≡ over r) × (v.db.committed ≡ u.db.committed)

  solo-rest :
      (n : ℕ) (phase : Phase) (w : World)
      → remaining phase ≤ n
      → seen q phase w ≡ w
      → IsSound w.db.committed
      → Relies q w.db.committed phase
      → Agrees n (solo e q n phase w) (rest e q n phase w)
  solo-rest zero phase w short same sound relies =
      let (r, is_over) = zero-IsOver phase (omega arith) in rw is_over (refl, refl)
  solo-rest (suc n) phase w short same sound relies =
      subst (λ x. Agrees n (on (advance e q phase x)) (rest e q (suc n) phase w)) (sym same)
        (subst (Agrees n (on (advance e q phase w))) (sym (rest-suc e q n phase w))
          (after (advance e q phase w) refl (solo-rest n)))
    where
      on : Outcome Phase × World → Phase × World
      on (r, v) = solo e q n (landed r) v

      after :
          (p : Outcome Phase × World)
          → advance e q phase w ≡ p
          → ((next : Phase) (v : World)
              → remaining next ≤ n
              → seen q next v ≡ v
              → IsSound v.db.committed
              → Relies q v.db.committed next
              → Agrees n (solo e q n next v) (rest e q n next v))
          → Agrees n (solo e q n (landed p.0) p.1) (resume (rest e q n) p.0 p.1)
      after (raised x, v) h ih = solo-over e q n (raised x) v
      after (returned next, v) h ih =
          let h' : advance e q phase (seen q phase w) ≡ (returned next, v) =
            ap (advance e q phase) same ∙ h in
          let move : Moves q w.db.committed phase next v.db.committed =
            rw h' at (advance-Moves law q w phase sound.in_range relies) in
          let work = advance-view law q w phase sound.in_range relies h' in
          ih next v (next-remaining n move short) (rw (← work) refl) (Moves-IsSound move sound)
            (Moves-Relies move relies)

module _ {e : Engine} (law : IsTransactional e) (requests : ℕ → Request) where
  -- A session that has not begun, on sound tables, and that is given nine turns with no other between
  -- them: it ends with the answer or exception of `execute_quote` in a session of its own, and what is
  -- committed is what `execute_quote` has committed.
  pub turns-eq-execute_quote :
      (i : ℕ) (s : Shared)
      → s.phases i ≡ fresh
      → IsSound s.world.db.committed
      → let v = turns e requests i 9 s in
        let (r, u) = execute_quote e (requests i) (seen (requests i) fresh s.world) in
        (v.phases i ≡ over r) × (v.world.db.committed ≡ u.db.committed)
  turns-eq-execute_quote i s start sound =
      let q = requests i in
      let w = seen q fresh s.world in
      let begun : solo e q 9 (s.phases i) s.world ≡ solo e q 9 fresh w =
        ap (λ phase. solo e q 9 phase s.world) start in
      let agreed : Agrees law q 9 (solo e q 9 fresh w) (execute_quote e q w) =
        subst (Agrees law q 9 (solo e q 9 fresh w)) (advances-eq-execute_quote e q w)
          (solo-rest law q 9 fresh w (omega arith) refl sound tt) in
      let (at_phase, at_world) = turns-solo e requests i 9 s in
      (
        at_phase ∙ ap (λ p. p.0) begun ∙ agreed.0,
        ap (λ (v : World). v.db.committed) (at_world ∙ ap (λ p. p.1) begun) ∙ agreed.1,
      )
