-- ===== src/Startup/Triggers.antt =====
-- The triggers that app/db/session.py sets at the last event.
use umba_fx_engine.Prelude.{
  ◌⊎◌, ◌≡◌, refl, String, true, false, none, some, List, [], ◌∷◌, arith, inl, inr, Bool-cases, ◌∙◌,
}
use umba_fx_engine.Startup.{
  Table, same_table, is_in, create_trigger, Catalog, trigger_name, immutable_triggers,
}
use umba_fx_engine.Startup.Statements.{
  is_some, with_trigger, documented_all, documented_all-step, create_trigger-runs, same_table_eq,
  with_trigger_self, with_trigger_other,
}

abbrev pub protected : Table → Catalog → Catalog
protected t c =
    with_trigger (trigger_name t) t (some "fx_raise_immutable")
      (with_trigger (trigger_name t) t none c)

-- The statements at the last event, on tables that are there.
abbrev pub protect : List Table → Catalog → Catalog
protect [] c = c
protect (t ∷ ts) c = protect ts (protected t c)

pub protect-runs :
    (ts : List Table) (c : Catalog)
    → ((t : Table) → c.exists t ≡ true)
    → is_some (c.functions "fx_raise_immutable") ≡ true
    → documented_all (immutable_triggers ts) c ≡ some (protect ts c)
protect-runs [] c all f = refl
protect-runs (t ∷ ts) c all f =
    documented_all-step (create_trigger (trigger_name t) t "fx_raise_immutable")
      (immutable_triggers ts) (with_trigger (trigger_name t) t none c) (protected t c)
      (create_trigger-runs (trigger_name t) t "fx_raise_immutable"
        (with_trigger (trigger_name t) t none c) (all t)
        (with_trigger_self (trigger_name t) t none c) f)
    ∙ protect-runs ts (protected t c) all f

pub protect-same :
    (ts : List Table) (c : Catalog)
    → ((protect ts c).functions ≡ c.functions) × ((protect ts c).exists ≡ c.exists)
protect-same [] c = (refl, refl)
protect-same (t ∷ ts) c = protect-same ts (protected t c)

pub protect-other :
    (ts : List Table) (c : Catalog) (name : String) (t : Table)
    → is_in t ts ≡ false
    → (protect ts c).triggers name t ≡ c.triggers name t
protect-other [] c name t h = refl
protect-other (x ∷ ts) c name t h = elim (Bool-cases (same_table t x)) [
  | inl e ↦ ground arith
  | inr e ↦
      protect-other ts (protected x c) name t (rw e at h)
      ∙ with_trigger_other (trigger_name x) x (some "fx_raise_immutable")
          (with_trigger (trigger_name x) x none c) name t e
      ∙ with_trigger_other (trigger_name x) x none c name t e
]

-- A trigger of a table of the list stays, whether it was set before or is set now.
pub protect-in :
    (ts : List Table) (c : Catalog) (t : Table)
    → (is_in t ts ≡ true) ⊎ (c.triggers (trigger_name t) t ≡ some "fx_raise_immutable")
    → (protect ts c).triggers (trigger_name t) t ≡ some "fx_raise_immutable"
protect-in [] c t (inl h) = cc
protect-in [] c t (inr h) = h
protect-in (x ∷ ts) c t h = elim (Bool-cases (same_table t x)) [
  | inl e ↦
      let same : t ≡ x = same_table_eq t x e in
      protect-in ts (protected x c) t (
        inr (
          rw same (
            with_trigger_self (trigger_name x) x (some "fx_raise_immutable")
              (with_trigger (trigger_name x) x none c))))
  | inr e ↦ protect-in ts (protected x c) t (later e h)
]
  where
    later :
        same_table t x ≡ false
        → (is_in t (x ∷ ts) ≡ true) ⊎ (c.triggers (trigger_name t) t ≡ some "fx_raise_immutable")
        → (is_in t ts ≡ true)
          ⊎ ((protected x c).triggers (trigger_name t) t ≡ some "fx_raise_immutable")
    later e (inl i) = inl (rw e at i)
    later e (inr i) = inr (rw e i)
