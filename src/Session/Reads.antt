-- ===== src/Session/Reads.antt =====
-- Rules for actions that leave the tables alone.
use umba_fx_engine.Prelude.{
  ◌≡◌, refl, sym, ap, ◌∙◌, Bool, true, false, Option, none, some, if◌then◌else◌,
}
use umba_fx_engine.Errors.{Exception}
use umba_fx_engine.Schema.{Tables}
use umba_fx_engine.Session.{
  World, Outcome, returned, raised, Action, resume, ◌>>=◌, pure, raise, gets, or_raise, raise_if,
  now, uuid4,
}
use umba_fx_engine.Session.Laws.{KeepsCommitted}

-- Whether it returns or raises, the action changes no table.
pub record KeepsTables {A : Type 0} (m : Action A) : Type 0 where
  pub at : (w : World) → (m w).1.db ≡ w.db

module _ {A : Type 0} where
  pub KeepsTables-pure : (a : A) → KeepsTables (pure a)
  KeepsTables-pure a = record { at = λ w. refl }

  pub KeepsTables-raise : (x : Exception) → KeepsTables (raise {A = A} x)
  KeepsTables-raise x = record { at = λ w. refl }

  pub KeepsTables-gets : (f : Tables → A) → KeepsTables (gets f)
  KeepsTables-gets f = record { at = λ w. refl }

  pub KeepsTables-or_raise : (x : Exception) (o : Option A) → KeepsTables (or_raise x o)
  KeepsTables-or_raise x none = record { at = λ w. refl }
  KeepsTables-or_raise x (some a) = record { at = λ w. refl }

  pub KeepsTables-if :
      (b : Bool) (m n : Action A) → KeepsTables m → KeepsTables n → KeepsTables (if b then m else n)
  KeepsTables-if true m n km kn = km
  KeepsTables-if false m n km kn = kn

pub KeepsTables-raise_if : (b : Bool) (x : Exception) → KeepsTables (raise_if b x)
KeepsTables-raise_if true x = record { at = λ w. refl }
KeepsTables-raise_if false x = record { at = λ w. refl }

pub KeepsTables-now : KeepsTables now
KeepsTables-now = record { at = λ w. refl }

pub KeepsTables-uuid4 : KeepsTables uuid4
KeepsTables-uuid4 = record { at = λ w. refl }

module _ {A B : Type 0} where
  pub KeepsTables-bind :
      (m : Action A) (f : A → Action B)
      → KeepsTables m
      → ((a : A) → KeepsTables (f a))
      → KeepsTables (m >>= f)
  KeepsTables-bind m f km kf = record { at = λ w. after w (m w) (km.at w) }
    where
      after : (w : World) (p : Outcome A × World) → p.1.db ≡ w.db → (resume f p.0 p.1).1.db ≡ w.db
      after w (returned a, w') k = (kf a).at w' ∙ k
      after w (raised x, w') k = k

pub KeepsTables-KeepsCommitted : {A : Type 0} {m : Action A} → KeepsTables m → KeepsCommitted m
KeepsTables-KeepsCommitted k = record { at = λ w. ap (λ t. t.committed) (k.at w) }

-- The tables after a run that is known.
pub KeepsTables-run :
    {A : Type 0} {m : Action A} {w : World} {r : Outcome A} {v : World}
    → KeepsTables m
    → m w ≡ (r, v)
    → v.db ≡ w.db
KeepsTables-run {w} k h = sym (ap (λ p. p.1.db) h) ∙ k.at w

pub ruleset reads_rules = (
  KeepsTables-pure, KeepsTables-raise, KeepsTables-gets, KeepsTables-or_raise, KeepsTables-if,
  KeepsTables-raise_if, KeepsTables-now, KeepsTables-uuid4, KeepsTables-bind,
)
