-- ===== src/Startup/Protected.antt =====
-- After a start of the application the audit trail is protected.
use umba_fx_engine.Prelude.{
  Bool, sym, subst, ◌⊎◌, ◌≡◌, refl, String, true, false, Option, none, some, List, ◌++◌,
  if◌then◌else◌, inl, inr, Bool-cases, ◌∙◌, ap,
}
use Prim.Native.String.{◌++◌ as ◌<>◌}
use umba_fx_engine.Startup.{
  Table, of_customers, of_balances, of_rate_refreshes, of_rate_snapshots, of_current_rates,
  of_quotes, of_quote_legs, of_executions, of_credit_adjustments, of_ledger_entries,
  of_idempotency_keys, tablename, is_in, Raises, Catalog, trigger_name, model_immutable_tables,
  reject_modification, immutable_tables, fx_raise_immutable, events, Backend, absent, execute_all,
  create_all, refusal, fired, raised_by,
}
use umba_fx_engine.Startup.Statements.{
  with_function, creations, IsDocumented, IsConsistent, execute_all-documented,
}
use umba_fx_engine.Startup.Triggers.{protect, protect-runs, protect-same, protect-other, protect-in}
use umba_fx_engine.Startup.Created.{
  AreAbsent, AreAbsent-with_function, absent-AreAbsent, absent-in, created, created-exists,
  created-functions, created-listed, created-runs, created-unlisted,
}

narrower : (t : Table) → is_in t model_immutable_tables ≡ false → is_in t immutable_tables ≡ false
narrower of_customers h = refl
narrower of_balances h = refl
narrower of_rate_refreshes h = refl
narrower of_rate_snapshots h = cc
narrower of_current_rates h = refl
narrower of_quotes h = cc
narrower of_quote_legs h = cc
narrower of_executions h = cc
narrower of_credit_adjustments h = cc
narrower of_ledger_entries h = cc
narrower of_idempotency_keys h = refl

-- The tables that must reject every change, as the tests of the triggers list them.
abbrev pub is_append_only : Table → Bool
is_append_only of_quotes = true
is_append_only of_quote_legs = true
is_append_only of_executions = true
is_append_only of_ledger_entries = true
is_append_only of_rate_snapshots = true
is_append_only _ = false

append_only-listed : (t : Table) → is_append_only t ≡ is_in t immutable_tables
append_only-listed of_customers = refl
append_only-listed of_balances = refl
append_only-listed of_rate_refreshes = refl
append_only-listed of_rate_snapshots = refl
append_only-listed of_current_rates = refl
append_only-listed of_quotes = refl
append_only-listed of_quote_legs = refl
append_only-listed of_executions = refl
append_only-listed of_credit_adjustments = refl
append_only-listed of_ledger_entries = refl
append_only-listed of_idempotency_keys = refl

-- What an UPDATE or DELETE of a row of an audit table raises.
abbrev pub refusal_text : Table → String × Option String
refusal_text t =
    if is_append_only t
    then ("Table " <> tablename t <> " is append-only and immutable", some "23514")
    else (tablename t <> " rows are immutable", none)

named :
    (t : Table)
    → "" <> (tablename t <> " rows are immutable") ≡ tablename t <> " rows are immutable"
named of_customers = refl
named of_balances = refl
named of_rate_refreshes = refl
named of_rate_snapshots = refl
named of_current_rates = refl
named of_quotes = refl
named of_quote_legs = refl
named of_executions = refl
named of_credit_adjustments = refl
named of_ledger_entries = refl
named of_idempotency_keys = refl

refusal-known :
    (c : Catalog) (t : Table) (f : String) (r : Raises)
    → c.triggers (trigger_name t) t ≡ some f
    → c.functions f ≡ some r
    → refusal c t ≡ some (r.before_name <> tablename t <> r.after_name, r.errcode)
refusal-known c t f r h h' = ap (fired c t) h ∙ ap (raised_by t) h'

module _ {b : Backend} (law : IsDocumented b) (c : Catalog) (consistent : IsConsistent c) where
  abbrev missing : List Table
  missing = absent c b.sorted_tables

  abbrev prepared_catalog : Catalog
  prepared_catalog = with_function "reject_modification" reject_modification c

  abbrev tables_created : Catalog
  tables_created =
      with_function "fx_raise_immutable" fx_raise_immutable (created missing prepared_catalog)

  absent-prepared : AreAbsent missing prepared_catalog
  absent-prepared =
      AreAbsent-with_function "reject_modification" reject_modification missing c
        (absent-AreAbsent c b.sorted_tables consistent law.once)

  all-exist : (t : Table) → tables_created.exists t ≡ true
  all-exist t = created-exists missing prepared_catalog t (elim (Bool-cases (c.exists t)) [
    | inl there ↦ inr there
    | inr gone ↦ inl (absent-in c b.sorted_tables t gone (law.complete t))
  ])

  create_all-runs : create_all b c ≡ some (protect immutable_tables tables_created)
  unfolding create_all
  create_all-runs =
      ap (λ xs. execute_all b xs c) (law.emitted_lem events missing)
      ∙ execute_all-documented law
          (events.before_create ++ creations events missing events.after_create) c
      ∙ created-runs missing events.after_create prepared_catalog absent-prepared refl
      ∙ protect-runs immutable_tables tables_created all-exist refl

  listed-refusal :
      (t : Table)
      → is_in t immutable_tables ≡ true
      → refusal (protect immutable_tables tables_created) t
        ≡ some ("Table " <> tablename t <> " is append-only and immutable", some "23514")
  listed-refusal t listed =
      refusal-known (protect immutable_tables tables_created) t "fx_raise_immutable"
        fx_raise_immutable (protect-in immutable_tables tables_created t (inl listed))
        (ap (λ functions. functions "fx_raise_immutable")
          (protect-same immutable_tables tables_created).0)

  new-refusal :
      (t : Table)
      → is_in t immutable_tables ≡ false
      → is_in t model_immutable_tables ≡ true
      → c.exists t ≡ false
      → refusal (protect immutable_tables tables_created) t
        ≡ some (tablename t <> " rows are immutable", none)
  new-refusal t unlisted listed gone =
      refusal-known (protect immutable_tables tables_created) t "reject_modification"
        reject_modification
        (protect-other immutable_tables tables_created (trigger_name t) t unlisted
          ∙ created-listed missing prepared_catalog t listed absent-prepared
              (absent-in c b.sorted_tables t gone (law.complete t)))
        (ap (λ functions. functions "reject_modification")
            (protect-same immutable_tables tables_created).0
          ∙ ap (λ functions. functions "reject_modification")
              (created-functions missing prepared_catalog))
      ∙ ap (λ text. some (text, none)) (named t)

  -- On every database on which a table that is missing has no trigger, a start of the application
  -- creates what is missing without an error. After it an UPDATE or DELETE of quotes, quote_legs,
  -- executions, ledger_entries or rate_snapshots is refused with the error code 23514, whether the table
  -- was there before or not, and one of credit_adjustments with another text if this start has created
  -- that table.
  pub create_all_refuses :
      (t : Table)
      → (is_append_only t ≡ true) ⊎ ((t ≡ of_credit_adjustments) × (c.exists t ≡ false))
      → (after : Catalog) × (create_all b c ≡ some after)
        × (after.exists t ≡ true)
        × (refusal after t ≡ some (refusal_text t))
  create_all_refuses t h = (
    protect immutable_tables tables_created,
    create_all-runs,
    ap (λ f. f t) (protect-same immutable_tables tables_created).1 ∙ all-exist t,
    elim h [
      | inl listed ↦ rw listed (listed-refusal t (sym (append_only-listed t) ∙ listed))
      | inr (is_credits, gone) ↦
          subst (λ t. refusal (protect immutable_tables tables_created) t ≡ some (refusal_text t))
            (sym is_credits)
            (new-refusal of_credit_adjustments refl refl
              (subst (λ t. c.exists t ≡ false) is_credits gone))
    ],
  )

  -- The triggers of the tables that neither list has stay as they are.
  unlisted-triggers :
      (t : Table) (name : String)
      → is_in t model_immutable_tables ≡ false
      → (protect immutable_tables tables_created).triggers name t ≡ c.triggers name t
  unlisted-triggers t name unlisted =
      protect-other immutable_tables tables_created name t (narrower t unlisted)
      ∙ created-unlisted missing prepared_catalog name t unlisted
