-- ===== src/Concurrency/Brackets.antt =====
-- How the actions of a call are bracketed does not matter, under the handler and outside it.
use umba_fx_engine.Prelude.{ℕ, ◌≡◌, refl, Bool, Option, arith}
use umba_fx_engine.Prelude.Int.{ℤ}
use umba_fx_engine.Schema.{Tables}
use umba_fx_engine.Session.{
  World, Outcome, returned, raised, Action, resume, ◌>>=◌, ◌>>◌, pure, gets,
}
use umba_fx_engine.Session.Backend.{Engine}
use umba_fx_engine.Executions.Rejections.{Request, guarded, on_failure, handle}
use umba_fx_engine.Executions.Movement.{publish}

module _ {A B : Type 0} where
  pub bind-cong :
      (m : Action A) {f g : A → Action B} (w : World)
      → ((a : A) (v : World) → f a v ≡ g a v)
      → (m >>= f) w ≡ (m >>= g) w
  bind-cong m {f} {g} w h = after (m w)
    where
      after : (p : Outcome A × World) → resume f p.0 p.1 ≡ resume g p.0 p.1
      after (returned a, v) = h a v
      after (raised x, v) = refl

  -- A handler around a sequence is one around each of its parts.
  pub guarded-bind :
      (e : Engine) (q : Request) (c : Option ℕ) (m : Action A) (f : A → Action B) (w : World)
      → guarded e q c (m >>= f) w ≡ (guarded e q c m >>= λ a. guarded e q c (f a)) w
  unfolding guarded on_failure
  guarded-bind e q c m f w = after (m w)
    where
      after :
          (p : Outcome A × World)
          → (let (r, v) = resume f p.0 p.1 in handle (on_failure e q c) r v) ≡ (
              let (r, v) = handle (on_failure e q c) p.0 p.1 in
              resume (λ a. guarded e q c (f a)) r v)
      after (returned a, v) = refl
      after (raised x, v) = refl

module _ {A B C : Type 0} (m : Action A) (f : A → Action B) (g : B → Action C) (w : World) where
  pub bind_assoc : (m >>= f >>= g) w ≡ (m >>= λ a. f a >>= g) w
  bind_assoc = after (m w)
    where
      after :
          (p : Outcome A × World)
          → (let (r, v) = resume f p.0 p.1 in resume g r v) ≡ resume (λ a. f a >>= g) p.0 p.1
      after (returned a, v) = refl
      after (raised x, v) = refl

-- The two ways to bracket the main block, for any actions in it.
pub regroup :
    {L P R : Type 0} (unexecuted expiry : Action (Unit {0})) (new_a new_b : Tables → Bool)
    (ensure_a ensure_b get_a get_b : Action ℤ) (order : ℤ → ℤ → L) (funds : L → Action (Unit {0}))
    (move : L → Action P) (time : Action ℕ) (store : P → ℕ → Action (Unit {0}))
    (publish : P → Action R) (w : World)
    → (unexecuted
          >> (expiry
              >> ((ensure_a >> (ensure_b >> (get_a >>= λ a. get_b >>= λ b. pure (order a b))))
                  >>= λ locked.
                      funds locked >> (move locked >>= λ p. time >>= λ t. store p t >> pure p)))
          >>= publish)
        w
      ≡ ((unexecuted >> expiry) >>= λ _. (gets new_a >>= λ n. ensure_a >> pure n) >>= λ _.
            (gets new_b >>= λ n. ensure_b >> pure n) >>= λ _. get_a >>= λ a. get_b >>= λ b.
            funds (order a b) >> (move (order a b) >>= λ p. time >>= λ t. store p t >> publish p))
          w
regroup unexecuted expiry new_a new_b ensure_a ensure_b get_a get_b order funds move time store
      publish w =
    ground arith
