-- ===== src/Session/Backend.antt =====
-- The transaction of a session as others and as its own statements see it, and what the program
-- takes from outside the repository.
use umba_fx_engine.Prelude.{ℕ, String, Option, none, ◌≡◌, refl}
use umba_fx_engine.Errors.{Exception}
use umba_fx_engine.Schema.{Tables}

-- `committed` is what other sessions read; `work` is that with the flushed writes of this one.
pub record Transaction : Type 0 where
  pub committed : Tables
  pub work : Tables

pub record Engine : Type 0 where
  -- `Session.begin` (implicit at the first statement), `Session.commit` and `Session.rollback`.
  pub begin : Transaction → Transaction
  pub commit : Transaction → Transaction
  pub rollback : Transaction → Transaction
  -- `str(uuid)`
  pub str_uuid : ℕ → String
  -- The SHA-256 digest of `json.dumps({"method": …, "path": …, "body": {"quote_id": …}})`.
  pub digest : String → String → String → String
  -- What a test has put in the place of `_after_debit_hook`: `none` returns, as in production.
  pub after_debit : Option Exception

-- What the services rely on: a commit publishes all that was flushed, a rollback drops it, and a new
-- transaction sees what is committed.
pub record IsTransactional (e : Engine) : Type 0 where
  pub begin_lem : (t : Transaction) → e.begin t ≡ record t { work = t.committed }
  pub commit_lem : (t : Transaction) → e.commit t ≡ record t { committed = t.work }
  pub rollback_lem : (t : Transaction) → e.rollback t ≡ record t { work = t.committed }

-- The assumptions can be met.
abbrev pub plain_engine : Engine
plain_engine = record {
  begin = λ t. record t { work = t.committed };
  commit = λ t. record t { committed = t.work };
  rollback = λ t. record t { work = t.committed };
  str_uuid = λ id. "id";
  digest = λ method path id. id;
  after_debit = none;
}

pub plain_engine-IsTransactional : IsTransactional plain_engine
plain_engine-IsTransactional = record {
  begin_lem = λ t. refl;
  commit_lem = λ t. refl;
  rollback_lem = λ t. refl;
}
