-- ===== src/Startup/Created.antt =====
-- The tables that a start of the application creates, with the triggers of app/db/models.py.
use umba_fx_engine.Prelude.{
  ◌⊎◌, ◌||◌, subst, ◌≡◌, refl, String, Bool, true, false, none, some, List, [], ◌∷◌, ◌++◌,
  if◌then◌else◌, arith, inl, inr, Bool-cases, ◌∙◌, sym,
}
use umba_fx_engine.Startup.{
  Table, same_table, is_in, Raises, Statement, create_table, create_trigger, Catalog, trigger_name,
  model_immutable_tables, model_trigger, events, absent,
}
use umba_fx_engine.Startup.Statements.{
  is_some, with_table, with_function, with_trigger, creations, AreOnce, IsConsistent,
  documented_all, documented_all-step, create_trigger-runs, same_table_self, same_table_comm,
  same_table_eq, with_trigger_self,
}

pub or_false : (a b : Bool) → (a || b) ≡ false → (a ≡ false) × (b ≡ false)
or_false true b h = cc
or_false false b h = (refl, h)

-- A missing table, created with the trigger of models.py.
abbrev pub created_one : Table → Catalog → Catalog
created_one t c =
    if is_in t model_immutable_tables
    then with_trigger (trigger_name t) t (some "reject_modification") (with_table t c)
    else with_table t c

abbrev pub created : List Table → Catalog → Catalog
created [] c = c
created (t ∷ ts) c = created ts (created_one t c)

-- The tables are not there, have no triggers, and come once.
abbrev pub AreAbsent : List Table → Catalog → Type 0
AreAbsent [] c = Unit
AreAbsent (t ∷ ts) c =
    (c.exists t ≡ false)
    × (c.triggers (trigger_name t) t ≡ none)
    × (is_in t ts ≡ false)
    × AreAbsent ts c

pub created_one-exists :
    (t : Table) (c : Catalog) (t' : Table)
    → (created_one t c).exists t' ≡ (if same_table t' t then true else c.exists t')
created_one-exists t c t' = elim (Bool-cases (is_in t model_immutable_tables)) [
  | inl h ↦ rw h refl
  | inr h ↦ rw h refl
]

pub created_one-functions : (t : Table) (c : Catalog) → (created_one t c).functions ≡ c.functions
created_one-functions t c = elim (Bool-cases (is_in t model_immutable_tables)) [
  | inl h ↦ rw h refl
  | inr h ↦ rw h refl
]

pub created_one-other :
    (t : Table) (c : Catalog) (name : String) (t' : Table)
    → same_table t' t ≡ false
    → (created_one t c).triggers name t' ≡ c.triggers name t'
created_one-other t c name t' away = elim (Bool-cases (is_in t model_immutable_tables)) [
  | inl h ↦ rw (h, away) refl
  | inr h ↦ rw h refl
]

pub AreAbsent-created_one :
    (t : Table) (ts : List Table) (c : Catalog)
    → is_in t ts ≡ false
    → AreAbsent ts c
    → AreAbsent ts (created_one t c)
AreAbsent-created_one t [] c h a = tt
AreAbsent-created_one t (x ∷ ts) c h (absent_x, untriggered, once, rest) =
    let (apart, later) = or_false (same_table t x) (is_in t ts) h in
    let away : same_table x t ≡ false = same_table_comm x t ∙ apart in
    (
      created_one-exists t c x ∙ rw away absent_x,
      created_one-other t c (trigger_name x) x away ∙ untriggered,
      once,
      AreAbsent-created_one t ts c later rest,
    )

pub created_one-runs :
    (t : Table) (xs : List Statement) (c : Catalog)
    → c.exists t ≡ false
    → c.triggers (trigger_name t) t ≡ none
    → is_some (c.functions "reject_modification") ≡ true
    → documented_all (create_table t ∷ (model_trigger t ++ xs)) c
      ≡ documented_all xs (created_one t c)
created_one-runs t xs c gone untriggered function =
    documented_all-step (create_table t) (model_trigger t ++ xs) c (with_table t c) (rw gone refl)
    ∙ elim (Bool-cases (is_in t model_immutable_tables)) [
      | inl h ↦ rw h (
          documented_all-step (create_trigger (trigger_name t) t "reject_modification") xs
            (with_table t c)
            (with_trigger (trigger_name t) t (some "reject_modification") (with_table t c))
            (create_trigger-runs (trigger_name t) t "reject_modification" (with_table t c)
              (rw (same_table_self t) refl) untriggered function))
      | inr h ↦ rw h refl
    ]

pub created-runs :
    (ts : List Table) (rest : List Statement) (c : Catalog)
    → AreAbsent ts c
    → is_some (c.functions "reject_modification") ≡ true
    → documented_all (creations events ts rest) c ≡ documented_all rest (created ts c)
created-runs [] rest c a f = refl
created-runs (t ∷ ts) rest c (gone, untriggered, once, a) f =
    created_one-runs t (creations events ts rest) c gone untriggered f
    ∙ created-runs ts rest (created_one t c) (AreAbsent-created_one t ts c once a)
        (rw (created_one-functions t c) f)

pub created-functions : (ts : List Table) (c : Catalog) → (created ts c).functions ≡ c.functions
created-functions [] c = refl
created-functions (t ∷ ts) c = created-functions ts (created_one t c) ∙ created_one-functions t c

pub created-exists :
    (ts : List Table) (c : Catalog) (t : Table)
    → (is_in t ts ≡ true) ⊎ (c.exists t ≡ true)
    → (created ts c).exists t ≡ true
created-exists [] c t (inl h) = cc
created-exists [] c t (inr h) = h
created-exists (x ∷ ts) c t h = created-exists ts (created_one x c) t (now h)
  where
    now :
        (is_in t (x ∷ ts) ≡ true) ⊎ (c.exists t ≡ true)
        → (is_in t ts ≡ true) ⊎ ((created_one x c).exists t ≡ true)
    now h = elim (Bool-cases (same_table t x)) [
      | inl e ↦ inr (created_one-exists x c t ∙ rw e refl)
      | inr e ↦ elim h [ inl i ↦ inl (rw e at i) | inr i ↦ inr (created_one-exists x c t ∙ rw e i) ]
    ]

pub created-other :
    (ts : List Table) (c : Catalog) (name : String) (t : Table)
    → is_in t ts ≡ false
    → (created ts c).triggers name t ≡ c.triggers name t
created-other [] c name t h = refl
created-other (x ∷ ts) c name t h = elim (Bool-cases (same_table t x)) [
  | inl e ↦ ground arith
  | inr e ↦ created-other ts (created_one x c) name t (rw e at h) ∙ created_one-other x c name t e
]

-- A table that models.py does not list gets no trigger.
pub created-unlisted :
    (ts : List Table) (c : Catalog) (name : String) (t : Table)
    → is_in t model_immutable_tables ≡ false
    → (created ts c).triggers name t ≡ c.triggers name t
created-unlisted [] c name t h = refl
created-unlisted (x ∷ ts) c name t h =
    created-unlisted ts (created_one x c) name t h ∙ elim (Bool-cases (same_table t x)) [
      | inl e ↦
          let unlisted : is_in x model_immutable_tables ≡ false =
            subst (λ y. is_in y model_immutable_tables ≡ false) (same_table_eq t x e) h in
          rw unlisted refl
      | inr e ↦ created_one-other x c name t e
    ]

-- One that it lists, and that was missing, gets its trigger.
pub created-listed :
    (ts : List Table) (c : Catalog) (t : Table)
    → is_in t model_immutable_tables ≡ true
    → AreAbsent ts c
    → is_in t ts ≡ true
    → (created ts c).triggers (trigger_name t) t ≡ some "reject_modification"
created-listed [] c t listed a h = cc
created-listed (x ∷ ts) c t listed (gone, untriggered, once, a) h =
    elim (Bool-cases (same_table t x)) [
      | inl e ↦
          let same = same_table_eq t x e in
          created-other ts (created_one x c) (trigger_name t) t
            (subst (λ y. is_in y ts ≡ false) (sym same) once)
          ∙ subst (λ y. (created_one y c).triggers (trigger_name t) t ≡ some "reject_modification")
              same
              (rw listed (
                with_trigger_self (trigger_name t) t (some "reject_modification") (with_table t c)))
      | inr e ↦
          created-listed ts (created_one x c) t listed (AreAbsent-created_one x ts c once a)
            (rw e at h)
    ]

pub absent-out :
    (c : Catalog) (ts : List Table) (t : Table) → is_in t ts ≡ false → is_in t (absent c ts) ≡ false
absent-out c [] t h = refl
absent-out c (x ∷ ts) t h =
    let (away, later) = or_false (same_table t x) (is_in t ts) h in
    let rest = absent-out c ts t later in
    elim (Bool-cases (c.exists x)) [ inl e ↦ rw e rest | inr e ↦ rw e (rw away rest) ]

pub absent-in :
    (c : Catalog) (ts : List Table) (t : Table)
    → c.exists t ≡ false
    → is_in t ts ≡ true
    → is_in t (absent c ts) ≡ true
absent-in c [] t gone h = cc
absent-in c (x ∷ ts) t gone h = elim (Bool-cases (same_table t x)) [
  | inl e ↦
      let gone_x : c.exists x ≡ false =
        subst (λ y. c.exists y ≡ false) (same_table_eq t x e) gone in
      rw gone_x (rw e refl)
  | inr e ↦
      let rest = absent-in c ts t gone (rw e at h) in
      elim (Bool-cases (c.exists x)) [
        | inl there ↦ rw there rest
        | inr missing ↦ rw missing (rw (e, rest) refl)
      ]
]

pub absent-AreAbsent :
    (c : Catalog) (ts : List Table) → IsConsistent c → AreOnce ts → AreAbsent (absent c ts) c
absent-AreAbsent c [] consistent once = tt
absent-AreAbsent c (t ∷ ts) consistent (once, rest) =
    let more = absent-AreAbsent c ts consistent rest in
    elim (Bool-cases (c.exists t)) [
      | inl there ↦ rw there more
      | inr gone ↦ rw gone (gone, consistent t gone, absent-out c ts t once, more)
    ]

pub AreAbsent-with_function :
    (f : String) (r : Raises) (ts : List Table) (c : Catalog)
    → AreAbsent ts c
    → AreAbsent ts (with_function f r c)
AreAbsent-with_function f r [] c a = tt
AreAbsent-with_function f r (t ∷ ts) c (gone, untriggered, once, a) =
    (gone, untriggered, once, AreAbsent-with_function f r ts c a)
