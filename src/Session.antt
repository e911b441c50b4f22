-- ===== src/Session.antt =====
-- A SQLAlchemy session, and the calls that the services make in it. A call takes the state of the
-- world to its outcome and the state after it: what was counted or logged before an exception stays.
-- SQLAlchemy and Postgres are not part of the repository: how a transaction ends is the argument
-- `Engine`, and what the code relies on is `IsTransactional`.
pub mod Backend
pub mod Laws
pub mod Atomic
pub mod Reads
pub mod Unchanged
use umba_fx_engine.Prelude.{ℕ, suc, ◌+◌, String, Bool, true, false, Option, none, some, List, ◌∷◌}
use umba_fx_engine.Prelude.Int.{ℤ}
use umba_fx_engine.Money.{Currency}
use umba_fx_engine.Errors.{Exception}
use umba_fx_engine.Schema.{Tables}
use Backend.{Transaction, Engine}

-- The counters of app/utils/observability.py.
pub record Metrics : Type 0 where
  pub quote_created_total : ℕ
  pub quote_expired_total : ℕ
  pub execution_success_total : ℕ
  pub execution_failure_total : ℕ
  pub idempotency_replay_total : ℕ
  pub idempotency_conflict_total : ℕ
  pub insufficient_funds_total : ℕ
  pub rate_refresh_success_total : ℕ
  pub rate_refresh_failure_total : ℕ
  pub stale_rates_total : ℕ

-- `logging.INFO`, `logging.WARNING` and `logging.ERROR`.
pub data Level : Type 0 where
  info warning error : Level

-- The value of a field of a log line.
pub data Field : Type 0 where
  uuid number : ℕ → Field
  string : String → Field
  currency : Currency → Field
  money rate : ℤ → Field
  null : Field

pub record LogEvent : Type 0 where
  pub event : String
  pub level : Level
  pub fields : List (String × Field)

pub record World : Type 0 where
  pub db : Transaction
  -- The readings that `datetime.now(UTC)` will give, in microseconds, and how many were taken.
  pub clock : ℕ → ℕ
  pub readings : ℕ
  -- `uuid4()` gives the numbers in order: two calls never give the same.
  pub next_uuid : ℕ
  pub metrics : Metrics
  pub log : List LogEvent

pub data Outcome (A : Type 0) : Type 0 where
  returned : A → Outcome A
  raised : Exception → Outcome A

abbrev pub Action : Type 0 → Type 0
Action A = World → Outcome A × World

abbrev pub resume : {A B : Type 0} → (A → Action B) → Outcome A → Action B
resume f (returned a) w = f a w
resume f (raised x) w = (raised x, w)

infixl 5 ◌>>=◌ ◌>>◌
abbrev pub ◌>>=◌ : {A B : Type 0} → Action A → (A → Action B) → Action B
◌>>=◌ m f w = let (r, w') = m w in resume f r w'

abbrev pub ◌>>◌ : {A B : Type 0} → Action A → Action B → Action B
m >> k = m >>= λ _. k

module _ {A : Type 0} where
  abbrev pub pure : A → Action A
  pure a w = (returned a, w)

  abbrev pub raise : Exception → Action A
  raise x w = (raised x, w)

  abbrev pub gets : (Tables → A) → Action A
  gets f w = (returned (f w.db.work), w)

  -- `none` is an exception.
  abbrev pub or_raise : Exception → Option A → Action A
  or_raise x none = raise x
  or_raise x (some a) = pure a

-- The pending rows of the open transaction after a flush.
abbrev pub write : (Tables → Tables) → Action (Unit {0})
write f w = (returned tt, record w { db = record w.db { work = f w.db.work } })

abbrev pub raise_if : Bool → Exception → Action (Unit {0})
raise_if true x = raise x
raise_if false x = pure tt

-- `if b: m`
abbrev pub when : Bool → Action (Unit {0}) → Action (Unit {0})
when true m = m
when false m = pure tt

-- `datetime.now(UTC)`
abbrev pub now : Action ℕ
now w = (returned (w.clock w.readings), record w { readings = suc w.readings })

abbrev pub uuid4 : Action ℕ
uuid4 w = (returned w.next_uuid, record w { next_uuid = suc w.next_uuid })

abbrev pub count : (Metrics → Metrics) → Action (Unit {0})
count f w = (returned tt, record w { metrics = f w.metrics })

-- app/utils/observability.py, `log_event`.
abbrev pub log_event : String → Level → List (String × Field) → Action (Unit {0})
log_event event level fields w = (
  returned tt,
  record w { log = record { event = event; level = level; fields = fields } ∷ w.log },
)

-- `session.commit()` and `session.rollback()`, once nothing is left to flush.
abbrev pub commit : Engine → Action (Unit {0})
commit e w = (returned tt, record w { db = e.commit w.db })

abbrev pub rollback : Engine → Action (Unit {0})
rollback e w = (returned tt, record w { db = e.rollback w.db })

-- app/db/session.py, `get_db`: a request has a session of its own, and what it has not committed is
-- rolled back when the session closes.
unfoldable pub get_db : {A : Type 0} → Engine → Action A → Action A
get_db e request w =
    let (r, w') = request (record w { db = e.begin w.db }) in
    (r, record w' { db = e.rollback w'.db })
