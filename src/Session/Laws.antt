-- ===== src/Session/Laws.antt =====
-- Rules for actions: what an action leaves committed, and the parts of one that returned.
use umba_fx_engine.Prelude.{
  ◌≡◌, refl, sym, ap, ◌∙◌, String, Bool, true, false, Option, none, some, List, arith,
  if◌then◌else◌,
}
use umba_fx_engine.Errors.{Exception}
use umba_fx_engine.Schema.{Tables}
use umba_fx_engine.Session.{
  World, Outcome, returned, raised, Action, resume, ◌>>=◌, pure, raise, gets, or_raise, write,
  raise_if, when, now, uuid4, count, log_event, Metrics, Level, Field, rollback,
}
use umba_fx_engine.Session.Backend.{Engine, IsTransactional}

-- Whether it returns or raises, the action publishes nothing.
pub record KeepsCommitted {A : Type 0} (m : Action A) : Type 0 where
  pub at : (w : World) → (m w).1.db.committed ≡ w.db.committed

module _ {A : Type 0} where
  pub KeepsCommitted-pure : (a : A) → KeepsCommitted (pure a)
  KeepsCommitted-pure a = record { at = λ w. refl }

  pub KeepsCommitted-raise : (x : Exception) → KeepsCommitted (raise {A = A} x)
  KeepsCommitted-raise x = record { at = λ w. refl }

  pub KeepsCommitted-gets : (f : Tables → A) → KeepsCommitted (gets f)
  KeepsCommitted-gets f = record { at = λ w. refl }

  pub KeepsCommitted-or_raise : (x : Exception) (o : Option A) → KeepsCommitted (or_raise x o)
  KeepsCommitted-or_raise x none = record { at = λ w. refl }
  KeepsCommitted-or_raise x (some a) = record { at = λ w. refl }

  pub KeepsCommitted-if :
      (b : Bool) (m n : Action A)
      → KeepsCommitted m
      → KeepsCommitted n
      → KeepsCommitted (if b then m else n)
  KeepsCommitted-if true m n km kn = km
  KeepsCommitted-if false m n km kn = kn

pub KeepsCommitted-write : (f : Tables → Tables) → KeepsCommitted (write f)
KeepsCommitted-write f = record { at = λ w. refl }

pub KeepsCommitted-raise_if : (b : Bool) (x : Exception) → KeepsCommitted (raise_if b x)
KeepsCommitted-raise_if true x = record { at = λ w. refl }
KeepsCommitted-raise_if false x = record { at = λ w. refl }

pub KeepsCommitted-when :
    (b : Bool) (m : Action (Unit {0})) → KeepsCommitted m → KeepsCommitted (when b m)
KeepsCommitted-when true m k = k
KeepsCommitted-when false m k = record { at = λ w. refl }

pub KeepsCommitted-now : KeepsCommitted now
KeepsCommitted-now = record { at = λ w. refl }

pub KeepsCommitted-uuid4 : KeepsCommitted uuid4
KeepsCommitted-uuid4 = record { at = λ w. refl }

pub KeepsCommitted-count : (f : Metrics → Metrics) → KeepsCommitted (count f)
KeepsCommitted-count f = record { at = λ w. refl }

pub KeepsCommitted-log_event :
    (event : String) (level : Level) (fields : List (String × Field))
    → KeepsCommitted (log_event event level fields)
KeepsCommitted-log_event event level fields = record { at = λ w. refl }

-- What is committed after a run that is known.
pub KeepsCommitted-run :
    {A : Type 0} {m : Action A} {w : World} {r : Outcome A} {v : World}
    → KeepsCommitted m
    → m w ≡ (r, v)
    → v.db.committed ≡ w.db.committed
KeepsCommitted-run {w} k h = sym (ap (λ p. p.1.db.committed) h) ∙ k.at w

module _ {e : Engine} (law : IsTransactional e) where
  pub KeepsCommitted-rollback : KeepsCommitted (rollback e)
  KeepsCommitted-rollback = record { at = λ w. rw (law.rollback_lem w.db) }

module _ {A B : Type 0} where
  pub KeepsCommitted-bind :
      (m : Action A) (f : A → Action B)
      → KeepsCommitted m
      → ((a : A) → KeepsCommitted (f a))
      → KeepsCommitted (m >>= f)
  KeepsCommitted-bind m f km kf = record { at = λ w. after w (m w) (km.at w) }
    where
      after :
          (w : World) (p : Outcome A × World)
          → p.1.db.committed ≡ w.db.committed
          → (resume f p.0 p.1).1.db.committed ≡ w.db.committed
      after w (returned a, w') k = (kf a).at w' ∙ k
      after w (raised x, w') k = k

  -- The two parts of a sequence that returned.
  pub bind-returned :
      (m : Action A) (f : A → Action B) (w : World) {b : B} {w' : World}
      → (m >>= f) w ≡ (returned b, w')
      → (a : A) × (v : World) × (m w ≡ (returned a, v)) × (f a v ≡ (returned b, w'))
  bind-returned m f w {b} {w'} h = parts (m w) refl h
    where
      parts :
          (p : Outcome A × World)
          → m w ≡ p
          → resume f p.0 p.1 ≡ (returned b, w')
          → (a : A) × (v : World) × (m w ≡ (returned a, v)) × (f a v ≡ (returned b, w'))
      parts (returned a, v) e h = (a, v, e, h)
      parts (raised x, v) e h = cc

module _ {A B : Type 0} where
  -- The same, for a proof that goes on with the parts as variables.
  pub bind-returned_elim :
      {C : Type 0} (m : Action A) (f : A → Action B) (w : World) {b : B} {w' : World}
      → (m >>= f) w ≡ (returned b, w')
      → ((a : A) (v : World) → m w ≡ (returned a, v) → f a v ≡ (returned b, w') → C)
      → C
  bind-returned_elim m f w h k = let (a, v, e, r) = bind-returned m f w h in k a v e r

pub or_raise-returned :
    {A : Type 0} (x : Exception) (o : Option A) (w : World) {a : A} {v : World}
    → or_raise x o w ≡ (returned a, v)
    → (v ≡ w) × (o ≡ some a)
or_raise-returned x none w h = cc
or_raise-returned x (some a) w h = ground arith

pub returned-injective : {A : Type 0} {a b : A} → returned a ≡ returned b → a ≡ b
returned-injective h = cc

pub raise_if-returned :
    (b : Bool) (x : Exception) (w : World) {a : Unit {0}} {v : World}
    → raise_if b x w ≡ (returned a, v)
    → (v ≡ w) × (b ≡ false)
raise_if-returned true x w h = cc
raise_if-returned false x w h = ground arith

pub ruleset keeps_rules = (
  KeepsCommitted-pure, KeepsCommitted-raise, KeepsCommitted-gets, KeepsCommitted-or_raise,
  KeepsCommitted-if, KeepsCommitted-write, KeepsCommitted-raise_if, KeepsCommitted-when,
  KeepsCommitted-now, KeepsCommitted-uuid4, KeepsCommitted-count, KeepsCommitted-log_event,
  KeepsCommitted-bind,
)
