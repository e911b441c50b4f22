-- ===== src/Startup/Statements.antt =====
-- What app/db/session.py relies on of SQLAlchemy and Postgres when it creates the tables, and the
-- statements one by one.
use text.Mathlib.TextPositions.{eq_refl}
use umba_fx_engine.Prelude.{
  ◌≡◌, refl, String, Bool, true, false, not, ◌&&◌, str_eq, Option, none, some, List, [], ◌∷◌, ◌++◌,
  if◌then◌else◌, arith, ◌∙◌, ap,
}
use umba_fx_engine.Startup.{
  Table, same_table, is_in, Raises, Statement, create_table, create_or_replace_function,
  drop_trigger_if_exists, create_trigger, Catalog, Events, trigger_name, Backend, execute_all,
}

abbrev pub is_some : {A : Type 0} → Option A → Bool
is_some none = false
is_some (some a) = true

abbrev pub with_table : Table → Catalog → Catalog
with_table t c = record c { exists = λ t'. if same_table t' t then true else c.exists t' }

abbrev pub with_function : String → Raises → Catalog → Catalog
with_function f r c = record c { functions = λ g. if str_eq g f then some r else c.functions g }

abbrev pub with_trigger : String → Table → Option String → Catalog → Catalog
with_trigger name t f c = record c {
  triggers = λ name' t'. if same_table t' t && str_eq name' name then f else c.triggers name' t';
}

-- Postgres' documented answers to the four kinds of statement.
abbrev pub documented : Statement → Catalog → Option Catalog
documented (create_table t) c = if c.exists t then none else some (with_table t c)
documented (create_or_replace_function f r) c = some (with_function f r c)
documented (drop_trigger_if_exists name t) c = some (with_trigger name t none c)
documented (create_trigger name t f) c =
    if c.exists t && not (is_some (c.triggers name t)) && is_some (c.functions f)
    then some (with_trigger name t (some f) c)
    else none

-- The missing tables, each with its own event, before the rest.
abbrev pub creations : Events → List Table → List Statement → List Statement
creations ev [] rest = rest
creations ev (t ∷ ts) rest = create_table t ∷ (ev.after_create_of t ++ creations ev ts rest)

abbrev pub AreOnce : List Table → Type 0
AreOnce [] = Unit
AreOnce (t ∷ ts) = (is_in t ts ≡ false) × AreOnce ts

-- SQLAlchemy's documented order: the event before, each missing table with its own event, the event
-- after; and the metadata has every table once.
pub record IsDocumented (b : Backend) : Type 0 where
  pub execute_lem : (x : Statement) (c : Catalog) → b.execute x c ≡ documented x c
  pub emitted_lem :
      (ev : Events) (ts : List Table)
      → b.emitted ev ts ≡ ev.before_create ++ creations ev ts ev.after_create
  pub complete : (t : Table) → is_in t b.sorted_tables ≡ true
  pub once : AreOnce b.sorted_tables

-- A table that is not there has no triggers.
abbrev pub IsConsistent : Catalog → Type 0
IsConsistent c = (t : Table) → c.exists t ≡ false → c.triggers (trigger_name t) t ≡ none

abbrev pub documented_all : List Statement → Catalog → Option Catalog
documented_all [] c = some c
documented_all (x ∷ xs) c = elim (documented x c) [ none ↦ none | some c' ↦ documented_all xs c' ]

pub execute_all-documented :
    {b : Backend}
    → IsDocumented b
    → (xs : List Statement) (c : Catalog) → execute_all b xs c ≡ documented_all xs c
execute_all-documented law [] c = refl
execute_all-documented {b} law (x ∷ xs) c =
    ap (λ (o : Option Catalog). elim o [ none ↦ none | some c' ↦ execute_all b xs c' ])
      (law.execute_lem x c)
    ∙ rest (execute_all-documented law xs) (documented x c)
  where
    rest :
        ((c' : Catalog) → execute_all b xs c' ≡ documented_all xs c')
        → (o : Option Catalog)
        → ◌≡◌ {A = Option Catalog}
            (elim o [ none ↦ none | some c' ↦ execute_all b xs c' ])
            (elim o [ none ↦ none | some c' ↦ documented_all xs c' ])
    rest ih none = refl
    rest ih (some c') = ih c'

pub documented_all-step :
    (x : Statement) (xs : List Statement) (c c' : Catalog)
    → documented x c ≡ some c'
    → documented_all (x ∷ xs) c ≡ documented_all xs c'
documented_all-step x xs c c' h =
    ap (λ (o : Option Catalog). elim o [ none ↦ none | some d ↦ documented_all xs d ]) h

pub create_trigger-runs :
    (name : String) (t : Table) (f : String) (c : Catalog)
    → c.exists t ≡ true
    → c.triggers name t ≡ none
    → is_some (c.functions f) ≡ true
    → documented (create_trigger name t f) c ≡ some (with_trigger name t (some f) c)
create_trigger-runs name t f c here none_yet function = rw (here, none_yet, function) refl

pub same_table_self : (t : Table) → same_table t t ≡ true
same_table_self t = ground arith

pub same_table_comm : (t t' : Table) → same_table t t' ≡ same_table t' t
same_table_comm t t' = ground arith

pub same_table_eq : (t t' : Table) → same_table t t' ≡ true → t ≡ t'
same_table_eq t t' h = ground arith

-- The row of a trigger, after it was set.
pub with_trigger_self :
    (name : String) (t : Table) (f : Option String) (c : Catalog)
    → (with_trigger name t f c).triggers name t ≡ f
with_trigger_self name t f c = rw (same_table_self t, eq_refl name) refl

pub with_trigger_other :
    (name : String) (t : Table) (f : Option String) (c : Catalog) (name' : String) (t' : Table)
    → same_table t' t ≡ false
    → (with_trigger name t f c).triggers name' t' ≡ c.triggers name' t'
with_trigger_other name t f c name' t' h = rw h refl
