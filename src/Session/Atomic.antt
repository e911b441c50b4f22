-- ===== src/Session/Atomic.antt =====
-- Actions whose failure leaves no trace in the committed tables.
use umba_fx_engine.Prelude.{◌≡◌, sym, ap, ◌∙◌}
use umba_fx_engine.Errors.{Exception}
use umba_fx_engine.Session.{World, Outcome, returned, raised, Action, resume, ◌>>=◌}
use umba_fx_engine.Session.Laws.{KeepsCommitted}

-- An action that publishes nothing when it raises.
pub record IsAtomic {A : Type 0} (m : Action A) : Type 0 where
  pub at : (w : World) {x : Exception} → (m w).0 ≡ raised x → (m w).1.db.committed ≡ w.db.committed

module _ {A : Type 0} where
  pub KeepsCommitted-IsAtomic : {m : Action A} → KeepsCommitted m → IsAtomic m
  KeepsCommitted-IsAtomic k = record { at = λ w h. k.at w }

  -- The same, of a run that is known.
  pub IsAtomic-run :
      {m : Action A} {w : World} {x : Exception} {v : World}
      → IsAtomic m
      → m w ≡ (raised x, v)
      → v.db.committed ≡ w.db.committed
  IsAtomic-run {w} k h = sym (ap (λ p. p.1.db.committed) h) ∙ k.at w (ap (λ p. p.0) h)

module _ {A B : Type 0} where
  pub IsAtomic-bind :
      (m : Action A) (f : A → Action B)
      → KeepsCommitted m
      → ((a : A) → IsAtomic (f a))
      → IsAtomic (m >>= f)
  IsAtomic-bind m f km kf = record { at = λ w h. after w (m w) (km.at w) h }
    where
      after :
          (w : World) (p : Outcome A × World)
          → p.1.db.committed ≡ w.db.committed
          → {x : Exception} → (resume f p.0 p.1).0 ≡ raised x
          → (resume f p.0 p.1).1.db.committed ≡ w.db.committed
      after w (returned a, w') k h = (kf a).at w' h ∙ k
      after w (raised x, w') k h = k
