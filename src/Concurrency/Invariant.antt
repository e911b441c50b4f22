-- ===== src/Concurrency/Invariant.antt =====
-- What holds between any two steps of the sessions.
use umba_fx_engine.Prelude.{
  ℕ, ◌≡◌, refl, sym, ap, ◌∙◌, subst, some, true, false, inl, inr, ◌⊎◌, ◌==◌, Bool-cases, arith,
  List, [], ◌∷◌, ◌++◌,
}
use umba_fx_engine.Schema.{Tables, Execution, Payload}
use umba_fx_engine.Session.{World, returned}
use umba_fx_engine.Executions.Rejections.{Request}
use umba_fx_engine.Executions.Checks.{is_executed}
use umba_fx_engine.System.Sound.{IsSound}
use umba_fx_engine.System.History.{Extends}
use umba_fx_engine.Concurrency.Phases.{Phase, over, Lock, held_locks, IsHeld, wanted}
use umba_fx_engine.Concurrency.Protocol.{Relies, Moves}
use umba_fx_engine.Concurrency.Undisturbed.{Relies-kept}
use umba_fx_engine.Concurrency.Moves.{
  Moves-IsSound, Moves-Relies, Moves-IsHeld, Moves-won, Moves-IsUndisturbed, Moves-Extends,
}
use umba_fx_engine.Concurrency.Interleaving.{Shared, update, locks, MayGo, IsStart}

-- A call that has returned a new execution.
abbrev pub Won : Shared → ℕ → Payload → Type 0
Won s i p = s.phases i ≡ over (returned (p, false))

pub record Inv (requests : ℕ → Request) (s : Shared) : Type 0 where
  pub sound : IsSound s.world.db.committed
  pub relies : (i : ℕ) → Relies (requests i) s.world.db.committed (s.phases i)
  pub exclusive :
      (l : Lock) (i j : ℕ) → IsHeld l (locks requests s i) → IsHeld l (locks requests s j) → i ≡ j
  pub executed :
      (i : ℕ) (p : Payload)
      → Won s i p
      → is_executed (requests i).quote_id s.world.db.committed.executions ≡ true
  pub once :
      (i j : ℕ) (p p' : Payload)
      → Won s i p
      → Won s j p'
      → (requests i).quote_id ≡ (requests j).quote_id
      → i ≡ j

pub IsStart-Inv :
    (requests : ℕ → Request) (s : Shared)
    → IsStart s
    → IsSound s.world.db.committed
    → Inv requests s
IsStart-Inv requests s start sound = record {
  sound = sound;
  relies = λ i. subst (Relies (requests i) s.world.db.committed) (sym (start i)) tt;
  exclusive =
      λ l i j h h'. absurd (subst (λ phase. IsHeld l (held_locks (requests i) phase)) (start i) h);
  executed = λ i p won. let e = start i in cc;
  once = λ i j p p' won won' same. let e = start i in cc;
}

is_executed-append :
    (id : ℕ) (new old : List Execution)
    → is_executed id old ≡ true
    → is_executed id (new ++ old) ≡ true
is_executed-append id [] old h = h
is_executed-append id (x ∷ new) old h = let rest = is_executed-append id new old h in ground arith

pub Extends-is_executed :
    (id : ℕ) {t u : Tables}
    → Extends t u
    → is_executed id t.executions ≡ true
    → is_executed id u.executions ≡ true
Extends-is_executed id {t} x h =
    let (new, e) = x.executions in rw (← e) (is_executed-append id new t.executions h)

-- A session that moves, and the phases after it.
module _ {requests : ℕ → Request} {s : Shared} (inv : Inv requests s) (i : ℕ)
    (may : MayGo requests s i) {next : Phase} {u : Tables}
    (move : Moves (requests i) s.world.db.committed (s.phases i) next u) where
  unfoldable pub after : ℕ → Phase
  after = update s.phases i next

  at_self : (j : ℕ) → (j == i) ≡ true → (j ≡ i) × (after j ≡ next)
  unfolding after
  at_self j e = (ground arith, rw e refl)

  at_other : (j : ℕ) → (j == i) ≡ false → after j ≡ s.phases j
  unfolding after
  at_other j e = rw e refl

  at_other_absurd : (j : ℕ) → (j == i) ≡ false → j ≡ i → ⊥
  at_other_absurd j e same = ground arith

  move-Relies : (j : ℕ) → Relies (requests j) u (after j)
  move-Relies j = elim (Bool-cases (j == i)) [
    | inl e ↦ let (same, now) = at_self j e in rw (now, same) (Moves-Relies move (inv.relies i))
    | inr e ↦ rw (at_other j e) (
        Relies-kept (requests j) (s.phases j)
          (Moves-IsUndisturbed (requests j) (s.phases j) move (inv.relies i)
            λ l mine other. at_other_absurd j e (inv.exclusive l j i other mine))
          (inv.relies j))
  ]

  move-IsHeld :
      (l : Lock) (j : ℕ)
      → IsHeld l (held_locks (requests j) (after j))
      → IsHeld l (locks requests s j) ⊎ ((j ≡ i) × (wanted (requests i) (s.phases i) ≡ some l))
  move-IsHeld l j h = elim (Bool-cases (j == i)) [
    | inl e ↦
        let (same, now) = at_self j e in
        elim (Moves-IsHeld move (rw (now, same) at h)) [
          | inl before ↦ inl (rw same before)
          | inr new ↦ inr (same, new)
        ]
    | inr e ↦ inl (rw (at_other j e) at h)
  ]

  move-exclusive :
      (l : Lock) (j k : ℕ)
      → IsHeld l (held_locks (requests j) (after j))
      → IsHeld l (held_locks (requests k) (after k))
      → j ≡ k
  move-exclusive l j k h h' = elim (move-IsHeld l j h) [
    | inl old ↦ elim (move-IsHeld l k h') [
      | inl old' ↦ inv.exclusive l j k old old'
      | inr (same', new') ↦ may l new' j old ∙ sym same'
    ]
    | inr (same, new) ↦ elim (move-IsHeld l k h') [
      | inl old' ↦ same ∙ sym (may l new k old')
      | inr (same', new') ↦ same ∙ sym same'
    ]
  ]

  move-executed :
      (j : ℕ) (p : Payload)
      → after j ≡ over (returned (p, false))
      → is_executed (requests j).quote_id u.executions ≡ true
  move-executed j p won = elim (Bool-cases (j == i)) [
    | inl e ↦
        let (same, now) = at_self j e in
        elim (Moves-won move (sym now ∙ won)) [
          | inl stays ↦ rw same (
              Extends-is_executed (requests i).quote_id (Moves-Extends move)
                (inv.executed i p (stays ∙ sym now ∙ won)))
          | inr (before, now') ↦ rw same now'
        ]
    | inr e ↦
        Extends-is_executed (requests j).quote_id (Moves-Extends move)
          (inv.executed j p (sym (at_other j e) ∙ won))
  ]

  -- The session that moves has not won a quote that another has won.
  move-once_other :
      (k : ℕ) (p p' : Payload)
      → next ≡ over (returned (p, false))
      → Won s k p'
      → (requests i).quote_id ≡ (requests k).quote_id
      → i ≡ k
  move-once_other k p p' now won same = elim (Moves-won move now) [
    | inl stays ↦ inv.once i k p p' (stays ∙ now) won same
    | inr (before, _) ↦
        let executed = inv.executed k p' won in
        let both : is_executed (requests i).quote_id s.world.db.committed.executions ≡ true =
          rw same executed in
        cc
  ]

  move-once :
      (j k : ℕ) (p p' : Payload)
      → after j ≡ over (returned (p, false))
      → after k ≡ over (returned (p', false))
      → (requests j).quote_id ≡ (requests k).quote_id
      → j ≡ k
  move-once j k p p' won won' same = elim (Bool-cases (j == i)) [
    | inl e ↦
        let (here, now) = at_self j e in
        elim (Bool-cases (k == i)) [
          | inl e' ↦ here ∙ sym (at_self k e').0
          | inr e' ↦
              here
              ∙ move-once_other k p p' (sym now ∙ won) (sym (at_other k e') ∙ won')
                  (ap (λ n. (requests n).quote_id) (sym here) ∙ same)
        ]
    | inr e ↦ elim (Bool-cases (k == i)) [
      | inl e' ↦
          let (here, now) = at_self k e' in
          sym (
            here
            ∙ move-once_other j p' p (sym now ∙ won') (sym (at_other j e) ∙ won)
                (ap (λ n. (requests n).quote_id) (sym here) ∙ sym same))
      | inr e' ↦ inv.once j k p p' (sym (at_other j e) ∙ won) (sym (at_other k e') ∙ won') same
    ]
  ]

  pub move-Inv :
      (w : World) → w.db.committed ≡ u → Inv requests (record { world = w; phases = after })
  move-Inv w e = record {
    sound = rw e (Moves-IsSound move inv.sound);
    relies = λ j. rw e (move-Relies j);
    exclusive = move-exclusive;
    executed = λ j p won. rw e (move-executed j p won);
    once = move-once;
  }
