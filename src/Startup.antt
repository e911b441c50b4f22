-- ===== src/Startup.antt =====
-- app/db/session.py and the end of app/db/models.py: what the start of the application (the lifespan
-- in app/main.py) has the database create. `Base.metadata.create_all` emits the tables that are
-- missing and the statements that the modules have put at its events; on the tables of the audit
-- trail these are triggers that refuse every UPDATE and DELETE. What SQLAlchemy emits and what Postgres
-- makes of a statement is the argument `Backend`.
pub mod Statements
pub mod Triggers
pub mod Created
pub mod Protected
use umba_fx_engine.Prelude.{
  ℕ, String, Bool, true, false, not, ◌&&◌, ◌==◌, str_eq, Option, none, some, List, [], ◌∷◌, ◌++◌,
  any, if◌then◌else◌, ◌≡◌,
}
use Prim.Native.String.{◌++◌ as ◌<>◌}

pub data Table : Type 0 where
  of_customers of_balances of_rate_refreshes of_rate_snapshots of_current_rates : Table
  of_quotes of_quote_legs of_executions of_credit_adjustments of_ledger_entries : Table
  of_idempotency_keys : Table

-- `__tablename__`
abbrev pub tablename : Table → String
tablename of_customers = "customers"
tablename of_balances = "balances"
tablename of_rate_refreshes = "rate_refreshes"
tablename of_rate_snapshots = "rate_snapshots"
tablename of_current_rates = "current_rates"
tablename of_quotes = "quotes"
tablename of_quote_legs = "quote_legs"
tablename of_executions = "executions"
tablename of_credit_adjustments = "credit_adjustments"
tablename of_ledger_entries = "ledger_entries"
tablename of_idempotency_keys = "idempotency_keys"

abbrev pub number : Table → ℕ
number of_customers = 0
number of_balances = 1
number of_rate_refreshes = 2
number of_rate_snapshots = 3
number of_current_rates = 4
number of_quotes = 5
number of_quote_legs = 6
number of_executions = 7
number of_credit_adjustments = 8
number of_ledger_entries = 9
number of_idempotency_keys = 10

abbrev pub same_table : Table → Table → Bool
same_table a b = number a == number b

abbrev pub is_in : Table → List Table → Bool
is_in t = any (same_table t)

-- A trigger's function does nothing but `RAISE EXCEPTION`: the text with the name of the table in it,
-- and the `ERRCODE` where one is given.
pub record Raises : Type 0 where
  pub before_name : String
  pub after_name : String
  pub errcode : Option String

pub data Statement : Type 0 where
  create_table : Table → Statement
  create_or_replace_function : String → Raises → Statement
  drop_trigger_if_exists : String → Table → Statement
  -- `BEFORE UPDATE OR DELETE … FOR EACH ROW EXECUTE FUNCTION`
  create_trigger : String → Table → String → Statement

pub record Catalog : Type 0 where
  pub exists : Table → Bool
  pub functions : String → Option Raises
  pub triggers : String → Table → Option String

-- The statements put at the events of `Base.metadata` and of its tables.
pub record Events : Type 0 where
  pub before_create : List Statement
  pub after_create_of : Table → List Statement
  pub after_create : List Statement

abbrev pub trigger_name : Table → String
trigger_name t = tablename t <> "_immutable"

-- models.py: `_IMMUTABLE_TABLES`
abbrev pub model_immutable_tables : List Table
model_immutable_tables =
    of_ledger_entries ∷ of_credit_adjustments ∷ of_executions ∷ of_quotes ∷ of_quote_legs
    ∷ of_rate_snapshots ∷ []

-- models.py: `_REJECT_MODIFICATION_FN`
abbrev pub reject_modification : Raises
reject_modification = record {
  before_name = "";
  after_name = " rows are immutable";
  errcode = none;
}

-- session.py: `IMMUTABLE_TABLES`
abbrev pub immutable_tables : List Table
immutable_tables =
    of_quotes ∷ of_quote_legs ∷ of_executions ∷ of_ledger_entries ∷ of_rate_snapshots ∷ []

-- session.py: `_IMMUTABLE_FN`
abbrev pub fx_raise_immutable : Raises
fx_raise_immutable = record {
  before_name = "Table ";
  after_name = " is append-only and immutable";
  errcode = some "23514";
}

-- session.py: `_IMMUTABLE_TRIGGERS`
abbrev pub immutable_triggers : List Table → List Statement
immutable_triggers [] = []
immutable_triggers (t ∷ ts) =
    drop_trigger_if_exists (trigger_name t) t
    ∷ create_trigger (trigger_name t) t "fx_raise_immutable"
    ∷ immutable_triggers ts

-- The loop over `_IMMUTABLE_TABLES` at the end of models.py.
abbrev pub model_trigger : Table → List Statement
model_trigger t =
    if is_in t model_immutable_tables
    then create_trigger (trigger_name t) t "reject_modification" ∷ []
    else []

-- The calls of `event.listen` of both modules.
abbrev pub events : Events
events = record {
  before_create = create_or_replace_function "reject_modification" reject_modification ∷ [];
  after_create_of = model_trigger;
  after_create =
      create_or_replace_function "fx_raise_immutable" fx_raise_immutable
      ∷ immutable_triggers immutable_tables;
}

pub record Backend : Type 0 where
  -- The tables of the metadata, in the order in which SQLAlchemy creates them.
  pub sorted_tables : List Table
  -- What `MetaData.create_all` emits when the given tables are missing.
  pub emitted : Events → List Table → List Statement
  -- Postgres: `none` when the statement fails.
  pub execute : Statement → Catalog → Option Catalog

abbrev pub absent : Catalog → List Table → List Table
absent c [] = []
absent c (t ∷ ts) = if c.exists t then absent c ts else t ∷ absent c ts

abbrev pub execute_all : Backend → List Statement → Catalog → Option Catalog
execute_all b [] c = some c
execute_all b (x ∷ xs) c = elim (b.execute x c) [ none ↦ none | some c' ↦ execute_all b xs c' ]

-- session.py: `create_all`. The statements are of one transaction, so that one that fails undoes all.
unfoldable pub create_all : Backend → Catalog → Option Catalog
create_all b c = execute_all b (b.emitted events (absent c b.sorted_tables)) c

abbrev pub raised_by : Table → Option Raises → Option (String × Option String)
raised_by t none = none
raised_by t (some r) = some (r.before_name <> tablename t <> r.after_name, r.errcode)

abbrev pub fired : Catalog → Table → Option String → Option (String × Option String)
fired c t none = none
fired c t (some f) = raised_by t (c.functions f)

-- What an UPDATE or DELETE of a row of the table raises, if anything: the text and the error code.
abbrev pub refusal : Catalog → Table → Option (String × Option String)
refusal c t = fired c t (c.triggers (trigger_name t) t)
