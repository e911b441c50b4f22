-- ===== src/Concurrency/Moves.antt =====
-- What one move of the protocol keeps, for the session that moves and for the others.
use umba_fx_engine.Prelude.{
  Bool, some-injective, ◌≡◌, refl, sym, ap, ◌∙◌, some, true, false, inl, inr, ◌⊎◌,
}
use umba_fx_engine.Schema.{Tables, Quote, Payload}
use umba_fx_engine.Session.{returned}
use umba_fx_engine.Executions.Rejections.{Request}
use umba_fx_engine.Executions.Checks.{is_executed}
use umba_fx_engine.Executions.Idempotency.{Transfer-is_executed}
use umba_fx_engine.System.Sound.{IsSound, Transfer-IsSound}
use umba_fx_engine.System.History.{Extends, Extends-refl, Transfer-Extends}
use umba_fx_engine.Concurrency.Phases.{
  Phase, checked, opened, prepared, over, Lock, held_locks, IsHeld, wanted,
}
use umba_fx_engine.Concurrency.Protocol.{
  Relies, Moves, look, replay, claim, find, check, open_first, open_second, lock_first, lock_second,
  transfer, refuse, stay,
}
use umba_fx_engine.Concurrency.Undisturbed.{IsUndisturbed, Transfer-IsUndisturbed}

IsUndisturbed-refl : (q : Request) (phase : Phase) (t : Tables) → IsUndisturbed q phase t t
IsUndisturbed-refl q phase t = record {
  key = λ _. refl;
  quotes = refl;
  execution = λ _. refl;
  row = λ c k _. refl;
}

opened-IsHeld :
    (q : Request) (quote : Quote) (a : Bool) {l : Lock}
    → IsHeld l (held_locks q (opened quote a))
    → IsHeld l (held_locks q (checked quote)) ⊎ (wanted q (checked quote) ≡ some l)
opened-IsHeld q quote a (inl h) = inl (inl h)
opened-IsHeld q quote a (inr (inl h)) = inl (inr (inl h))
opened-IsHeld q quote true (inr (inr (inl h))) = inr (ap some (sym h))
opened-IsHeld q quote true (inr (inr (inr h))) = absurd h
opened-IsHeld q quote false (inr (inr h)) = absurd h

prepared-IsHeld :
    (q : Request) (quote : Quote) (a b : Bool) {l : Lock}
    → IsHeld l (held_locks q (prepared quote (a, b)))
    → IsHeld l (held_locks q (opened quote a)) ⊎ (wanted q (opened quote a) ≡ some l)
prepared-IsHeld q quote a false h = inl h
prepared-IsHeld q quote a true (inl h) = inl (inl h)
prepared-IsHeld q quote a true (inr (inl h)) = inl (inr (inl h))
prepared-IsHeld q quote a true (inr (inr (inl h))) = inr (ap some (sym h))
prepared-IsHeld q quote a true (inr (inr (inr h))) = inl (inr (inr h))

module _ {q : Request} {t : Tables} where
  -- A move keeps the committed tables sound, and their history.
  pub Moves-IsSound :
      {phase next : Phase} {u : Tables} → Moves q t phase next u → IsSound t → IsSound u
  Moves-IsSound (transfer time x) s = Transfer-IsSound x s
  Moves-IsSound look s = s
  Moves-IsSound (replay r) s = s
  Moves-IsSound (claim h) s = s
  Moves-IsSound (find h) s = s
  Moves-IsSound (check time h h') s = s
  Moves-IsSound (open_first h) s = s
  Moves-IsSound (open_second h) s = s
  Moves-IsSound (lock_first h) s = s
  Moves-IsSound (lock_second h) s = s
  Moves-IsSound (refuse g) s = s
  Moves-IsSound stay s = s

  -- The session has what its next phase relies on.
  pub Moves-Relies :
      {phase next : Phase} {u : Tables}
      → Moves q t phase next u
      → Relies q t phase
      → Relies q u next
  Moves-Relies (transfer time x) r = tt
  Moves-Relies look r = tt
  Moves-Relies (replay h) r = tt
  Moves-Relies (claim h) r = h
  Moves-Relies (find h) r = (r, h)
  Moves-Relies (check time h h') (unclaimed, found) = record {
    unclaimed = unclaimed;
    found = found;
    unexecuted = h;
    time = time;
    in_time = h';
  }
  Moves-Relies (open_first h) c = c
  Moves-Relies (open_second h) c = c
  Moves-Relies (lock_first h) c = (c, h)
  Moves-Relies (lock_second h) (c, h') = (c, h', h)
  Moves-Relies (refuse g) r = tt
  Moves-Relies stay r = r

  -- A lock that is held after a move was held before it, or is the one that was wanted.
  pub Moves-IsHeld :
      {phase next : Phase} {u : Tables} {l : Lock}
      → Moves q t phase next u
      → IsHeld l (held_locks q next)
      → IsHeld l (held_locks q phase) ⊎ (wanted q phase ≡ some l)
  Moves-IsHeld (transfer time x) h = absurd h
  Moves-IsHeld look h = absurd h
  Moves-IsHeld (replay r) h = absurd h
  Moves-IsHeld (claim g) (inl h) = inr (ap some (sym h))
  Moves-IsHeld (claim g) (inr h) = absurd h
  Moves-IsHeld (find g) (inl h) = inr (ap some (sym h))
  Moves-IsHeld (find g) (inr h) = inl h
  Moves-IsHeld (check time g g') h = inl h
  Moves-IsHeld (open_first {quote} {a} g) h = opened-IsHeld q quote a h
  Moves-IsHeld (open_second {quote} {a} {b} g) h = prepared-IsHeld q quote a b h
  Moves-IsHeld (lock_first g) (inl h) = inr (ap some (sym h))
  Moves-IsHeld (lock_first g) (inr h) = inl h
  Moves-IsHeld (lock_second g) (inl h) = inr (ap some (sym h))
  Moves-IsHeld (lock_second g) (inr h) = inl h
  Moves-IsHeld (refuse g) h = absurd h
  Moves-IsHeld stay h = inl h

  -- A call that has just won has found its quote without an execution, and left it with one.
  pub Moves-won :
      {phase next : Phase} {u : Tables} {p : Payload}
      → Moves q t phase next u
      → next ≡ over (returned (p, false))
      → (phase ≡ next)
        ⊎ ((is_executed q.quote_id t.executions ≡ false)
            × (is_executed q.quote_id u.executions ≡ true))
  Moves-won (transfer time x) h = inr (Transfer-is_executed x)
  Moves-won look h = cc
  Moves-won (replay r) h = cc
  Moves-won (claim g) h = cc
  Moves-won (find g) h = cc
  Moves-won (check time g g') h = cc
  Moves-won (open_first g) h = cc
  Moves-won (open_second g) h = cc
  Moves-won (lock_first g) h = cc
  Moves-won (lock_second g) h = cc
  Moves-won (refuse g) h = cc
  Moves-won stay h = inl refl

  -- The other sessions are not disturbed by a move, if no lock is held twice.
  pub Moves-IsUndisturbed :
      {phase next : Phase} {u : Tables} (q' : Request) (phase' : Phase)
      → Moves q t phase next u
      → Relies q t phase
      → ((l : Lock) → IsHeld l (held_locks q phase) → IsHeld l (held_locks q' phase') → ⊥)
      → IsUndisturbed q' phase' t u
  Moves-IsUndisturbed q' phase' (transfer {own} {first} {second} time x) (c, _, _) disjoint =
      Transfer-IsUndisturbed own first second x (some-injective (sym x.found ∙ c.found)) q' phase'
        disjoint
  Moves-IsUndisturbed q' phase' look r disjoint = IsUndisturbed-refl q' phase' t
  Moves-IsUndisturbed q' phase' (replay h) r disjoint = IsUndisturbed-refl q' phase' t
  Moves-IsUndisturbed q' phase' (claim h) r disjoint = IsUndisturbed-refl q' phase' t
  Moves-IsUndisturbed q' phase' (find h) r disjoint = IsUndisturbed-refl q' phase' t
  Moves-IsUndisturbed q' phase' (check time h h') r disjoint = IsUndisturbed-refl q' phase' t
  Moves-IsUndisturbed q' phase' (open_first h) r disjoint = IsUndisturbed-refl q' phase' t
  Moves-IsUndisturbed q' phase' (open_second h) r disjoint = IsUndisturbed-refl q' phase' t
  Moves-IsUndisturbed q' phase' (lock_first h) r disjoint = IsUndisturbed-refl q' phase' t
  Moves-IsUndisturbed q' phase' (lock_second h) r disjoint = IsUndisturbed-refl q' phase' t
  Moves-IsUndisturbed q' phase' (refuse g) r disjoint = IsUndisturbed-refl q' phase' t
  Moves-IsUndisturbed q' phase' stay r disjoint = IsUndisturbed-refl q' phase' t

  pub Moves-Extends : {phase next : Phase} {u : Tables} → Moves q t phase next u → Extends t u
  Moves-Extends (transfer time x) = Transfer-Extends x
  Moves-Extends look = Extends-refl t
  Moves-Extends (replay r) = Extends-refl t
  Moves-Extends (claim h) = Extends-refl t
  Moves-Extends (find h) = Extends-refl t
  Moves-Extends (check time h h') = Extends-refl t
  Moves-Extends (open_first h) = Extends-refl t
  Moves-Extends (open_second h) = Extends-refl t
  Moves-Extends (lock_first h) = Extends-refl t
  Moves-Extends (lock_second h) = Extends-refl t
  Moves-Extends (refuse g) = Extends-refl t
  Moves-Extends stay = Extends-refl t
