-- ===== src/Session/Unchanged.antt =====
-- Calls that change nothing, neither the tables nor what is counted, logged or read of the clock,
-- whether they return or raise.
use umba_fx_engine.Prelude.{◌≡◌, refl, sym, ap, ◌∙◌, Bool, true, false, Option, none, some}
use umba_fx_engine.Errors.{Exception}
use umba_fx_engine.Session.{
  World, Outcome, returned, raised, Action, resume, ◌>>=◌, pure, raise, or_raise,
}
use umba_fx_engine.Session.Reads.{KeepsTables}
use umba_fx_engine.Prelude.{if◌then◌else◌}

pub record KeepsWorld {A : Type 0} (m : Action A) : Type 0 where
  pub at : (w : World) → (m w).1 ≡ w

module _ {A : Type 0} where
  pub KeepsWorld-pure : (a : A) → KeepsWorld (pure a)
  KeepsWorld-pure a = record { at = λ w. refl }

  pub KeepsWorld-raise : (x : Exception) → KeepsWorld (raise {A = A} x)
  KeepsWorld-raise x = record { at = λ w. refl }

  pub KeepsWorld-or_raise : (x : Exception) (o : Option A) → KeepsWorld (or_raise x o)
  KeepsWorld-or_raise x none = record { at = λ w. refl }
  KeepsWorld-or_raise x (some a) = record { at = λ w. refl }

  pub KeepsWorld-if :
      (b : Bool) (m n : Action A) → KeepsWorld m → KeepsWorld n → KeepsWorld (if b then m else n)
  KeepsWorld-if true m n km kn = km
  KeepsWorld-if false m n km kn = kn

  pub KeepsWorld-run :
      {m : Action A} {w : World} {r : Outcome A} {v : World} → KeepsWorld m → m w ≡ (r, v) → v ≡ w
  KeepsWorld-run {w} k h = sym (ap (λ p. p.1) h) ∙ k.at w

  pub KeepsWorld-KeepsTables : {m : Action A} → KeepsWorld m → KeepsTables m
  KeepsWorld-KeepsTables k = record { at = λ w. ap (λ (v : World). v.db) (k.at w) }

module _ {A B : Type 0} where
  pub KeepsWorld-bind :
      (m : Action A) (f : A → Action B)
      → KeepsWorld m
      → ((a : A) → KeepsWorld (f a))
      → KeepsWorld (m >>= f)
  KeepsWorld-bind m f km kf = record { at = λ w. after w (m w) (km.at w) }
    where
      after : (w : World) (p : Outcome A × World) → p.1 ≡ w → (resume f p.0 p.1).1 ≡ w
      after w (returned a, v) k = (kf a).at v ∙ k
      after w (raised x, v) k = k

pub ruleset worlds_rules =
    (KeepsWorld-bind, KeepsWorld-pure, KeepsWorld-raise, KeepsWorld-or_raise, KeepsWorld-if)
