-- ===== src/Tests/Worlds.antt =====
-- A small database: one customer with dollars and one quote that is not yet executed.
use umba_fx_engine.Prelude.{
  ℕ, refl, none, some, [], ◌∷◌, if◌then◌else◌, arith, Bool-cases, inl, inr,
}
use umba_fx_engine.Prelude.Int.{pos, ◌+ℤ◌, ◌-ℤ◌}
use umba_fx_engine.Money.{usd, kes}
use umba_fx_engine.Schema.{Tables, Quote, LedgerEntry, no_rows, credit, ref_credit_adjustment}
use umba_fx_engine.Repositories.Ledger.{sum_entries}
use umba_fx_engine.Repositories.Ledger.Totals.{IsReconciled, net-credit}
use umba_fx_engine.System.Sound.{IsSound}
use umba_fx_engine.Session.{World, Metrics}
use umba_fx_engine.Executions.Rejections.{Request}
use umba_fx_engine.Repositories.Balances.{BalanceTable, is_row}
use umba_fx_engine.Repositories.Balances.Range.{InRange}

abbrev pub zero_metrics : Metrics
zero_metrics = record {
  quote_created_total = 0;
  quote_expired_total = 0;
  execution_success_total = 0;
  execution_failure_total = 0;
  idempotency_replay_total = 0;
  idempotency_conflict_total = 0;
  insufficient_funds_total = 0;
  rate_refresh_success_total = 0;
  rate_refresh_failure_total = 0;
  stale_rates_total = 0;
}

-- $100.00 for KES 12,870.00, until the clock reads 60 seconds.
abbrev pub dollar_quote : Quote
dollar_quote = record {
  id = 7;
  customer_id = 1;
  source_currency = usd;
  destination_currency = kes;
  source_amount = pos 10_000;
  destination_amount = pos 1_287_000;
  executable_rate = pos 1_287_000_000_000;
  route = usd ∷ kes ∷ [];
  spread_bps = pos 50;
  created_at = 0;
  expires_at = 60_000_000;
}

-- Customer 1 has $250.00.
abbrev pub dollars : BalanceTable
dollars c k = if is_row 1 usd c k then some (pos 25_000) else none

pub dollars-InRange : InRange dollars
dollars-InRange c k = ground arith

abbrev opening : LedgerEntry
opening = record {
  customer_id = 1;
  currency = usd;
  amount = pos 25_000;
  direction = credit;
  reference_type = ref_credit_adjustment;
  reference_id = 50;
}

abbrev pub small_tables : Tables
small_tables = record no_rows {
  customers = 1 ∷ [];
  balances = dollars;
  quotes = dollar_quote ∷ [];
  entries = opening ∷ [];
}

pub small_tables-IsReconciled : IsReconciled small_tables
unfolding sum_entries ◌+ℤ◌ ◌-ℤ◌
small_tables-IsReconciled c k =
    rw (net-credit opening [] c k refl)
      (elim (Bool-cases (is_row 1 usd c k)) [ inl h ↦ rw h refl | inr h ↦ rw h refl ])

pub small_tables-IsSound : IsSound small_tables
small_tables-IsSound = record {
  reconciled = small_tables-IsReconciled;
  in_range = dollars-InRange;
  nonneg = λ c k. ground arith;
  amounts = ground arith;
  once = tt;
}

abbrev pub world_at : ℕ → Tables → World
world_at time t = record {
  db = record { committed = t; work = t };
  clock = λ reading. time;
  readings = 0;
  next_uuid = 100;
  metrics = zero_metrics;
  log = [];
}

abbrev pub small_world : World
small_world = world_at 1_000 small_tables

abbrev pub small_request : Request
small_request = record {
  quote_id = 7;
  idempotency_key = "key-1";
  req_hash = "hash-1";
  request_id = none;
}
