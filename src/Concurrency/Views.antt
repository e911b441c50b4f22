-- ===== src/Concurrency/Views.antt =====
-- What a session of app/services/executions.py sees of the tables between two phases. Each statement
-- reads what other sessions have committed before it, with the pending rows of its own transaction
-- over it: the isolation level of Postgres is READ COMMITTED unless the program sets another, and
-- app/db/session.py sets none.
use umba_fx_engine.Schema.{Tables, Quote}
use umba_fx_engine.Repositories.Balances.{insert_zero}
use umba_fx_engine.Session.{World}
use umba_fx_engine.Executions.Rejections.{Request}
use umba_fx_engine.Executions.Checks.{set_key}
use umba_fx_engine.Executions.Correct.{pending_key, prepared_tables}
use umba_fx_engine.Concurrency.Phases.{
  Phase, fresh, looked, keyed, quoted, checked, opened, prepared, paying_first, paying_both, over,
  first_currency,
}

-- The first balance has a row, too.
abbrev pub opened_tables : Request → Quote → Tables → Tables
opened_tables q quote t = record (set_key q.idempotency_key (pending_key q) t) {
  balances = insert_zero quote.customer_id (first_currency quote) t.balances;
}

-- The pending rows of a phase over what is committed.
abbrev pub view : Request → Phase → Tables → Tables
view q fresh t = t
view q looked t = t
view q keyed t = set_key q.idempotency_key (pending_key q) t
view q (quoted quote) t = set_key q.idempotency_key (pending_key q) t
view q (checked quote) t = set_key q.idempotency_key (pending_key q) t
view q (opened quote a) t = opened_tables q quote t
view q (prepared quote own) t = prepared_tables q quote t
view q (paying_first quote own first) t = prepared_tables q quote t
view q (paying_both quote own first second) t = prepared_tables q quote t
view q (over r) t = t

abbrev pub seen : Request → Phase → World → World
seen q phase w = record w { db = record w.db { work = view q phase w.db.committed } }
