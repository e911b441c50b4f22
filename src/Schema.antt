-- ===== src/Schema.antt =====
-- app/db/models.py: the tables, each with the columns that the program reads back. A table that is
-- only added to is the list of its rows, the newest first. `balances` and `idempotency_keys`, whose
-- rows are updated, are maps from the columns of their unique constraint. Left out are the surrogate
-- keys of rows that nothing refers to and the `created_at` and `updated_at` columns that the database
-- fills and nothing reads.
pub mod Columns
use umba_fx_engine.Prelude.{ℕ, String, Option, none, List, []}
use umba_fx_engine.Prelude.Int.{ℤ}
use umba_fx_engine.Money.{Currency}

-- `LEDGER_DIRECTION_DEBIT` and `LEDGER_DIRECTION_CREDIT`.
pub data Direction : Type 0 where
  debit credit : Direction

-- `LEDGER_REF_EXECUTION` and `LEDGER_REF_CREDIT_ADJUSTMENT`.
pub data Reference : Type 0 where
  ref_execution ref_credit_adjustment : Reference

-- Amounts are in hundredths, rates in units of 10 ^ -10, times in microseconds.
pub record LedgerEntry : Type 0 where
  pub customer_id : ℕ
  pub currency : Currency
  pub amount : ℤ
  pub direction : Direction
  pub reference_type : Reference
  pub reference_id : ℕ

pub record CreditAdjustment : Type 0 where
  pub id : ℕ
  pub customer_id : ℕ
  pub currency : Currency
  pub amount : ℤ
  pub reason : String
  pub source : String

pub record Quote : Type 0 where
  pub id : ℕ
  pub customer_id : ℕ
  pub source_currency : Currency
  pub destination_currency : Currency
  pub source_amount : ℤ
  pub destination_amount : ℤ
  pub executable_rate : ℤ
  pub route : List Currency
  pub spread_bps : ℤ
  pub created_at : ℕ
  pub expires_at : ℕ

-- `SPREAD_SIDE_BUY` and `SPREAD_SIDE_SELL`.
pub data SpreadSide : Type 0 where
  buy sell : SpreadSide

pub record QuoteLeg : Type 0 where
  pub quote_id : ℕ
  pub position : ℕ
  pub source_currency : Currency
  pub destination_currency : Currency
  pub mid_rate : ℤ
  pub executable_rate : ℤ
  pub spread_side : SpreadSide
  pub spread_bps : ℤ
  pub rate_snapshot_id : ℕ

pub record Execution : Type 0 where
  pub id : ℕ
  pub quote_id : ℕ
  pub customer_id : ℕ

-- The stored response of `POST /executions`.
pub record Leg : Type 0 where
  pub currency : Currency
  pub amount : ℤ

pub record Payload : Type 0 where
  pub execution_id : ℕ
  pub quote_id : ℕ
  pub debit_leg : Leg
  pub credit_leg : Leg
  pub balances : List (Currency × ℤ)

-- A row of `idempotency_keys`, under its endpoint and key.
pub record IdempotencyKey : Type 0 where
  pub request_hash : String
  pub response_payload : Option Payload
  pub status_code : Option ℕ
  pub completed_at : Option ℕ

pub record CurrentRate : Type 0 where
  pub base_currency : Currency
  pub quote_currency : Currency
  pub mid_rate : ℤ
  pub buy_spread_bps : ℤ
  pub sell_spread_bps : ℤ
  pub rate_snapshot_id : ℕ
  pub last_updated_at : ℕ

pub record RateSnapshot : Type 0 where
  pub id : ℕ
  pub rate_refresh_id : ℕ
  pub base_currency : Currency
  pub quote_currency : Currency
  pub mid_rate : ℤ
  pub provider : String
  pub provider_timestamp : Option ℕ
  pub fetched_at : ℕ
  pub raw_payload_hash : String

-- `RateRefresh.status`: "completed" or "failed".
pub data RefreshStatus : Type 0 where
  completed failed : RefreshStatus

pub record RateRefresh : Type 0 where
  pub id : ℕ
  pub provider : String
  pub status : RefreshStatus
  pub provider_base_currency : Option Currency
  pub provider_timestamp : Option ℕ
  pub fetched_at : ℕ
  pub pairs_updated : ℕ
  pub error_code : Option String
  pub error_message : Option String
  pub duration_ms : ℕ

pub record Tables : Type 0 where
  pub customers : List ℕ
  pub balances : ℕ → Currency → Option ℤ
  pub entries : List LedgerEntry
  pub adjustments : List CreditAdjustment
  pub quotes : List Quote
  pub legs : List QuoteLeg
  pub executions : List Execution
  pub keys : String → String → Option IdempotencyKey
  pub rates : Currency → Currency → Option CurrentRate
  pub snapshots : List RateSnapshot
  pub refreshes : List RateRefresh

abbrev pub no_rows : Tables
no_rows = record {
  customers = [];
  balances = λ c k. none;
  entries = [];
  adjustments = [];
  quotes = [];
  legs = [];
  executions = [];
  keys = λ endpoint key. none;
  rates = λ base quote. none;
  snapshots = [];
  refreshes = [];
}
