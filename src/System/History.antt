-- ===== src/System/History.antt =====
-- What the committed tables keep for good: the rows of the tables that session.py declares immutable,
-- and the responses kept under idempotency keys.
use umba_fx_engine.Prelude.{
  ℕ, ◌≡◌, refl, sym, String, ◌&&◌, Option, none, some, List, [], ◌∷◌, ◌++◌, inl, inr, arith, str_eq,
  eq_iff, Bool-cases, subst,
}
use mathlib.Core.List.{IsSuffix, suffix_refl, IsSuffix-trans}
use umba_fx_engine.Errors.{ApiError}
use umba_fx_engine.Prelude.Int.{ℤ}
use umba_fx_engine.Money.{Currency}
use umba_fx_engine.Money.Arithmetic.{Decimal}
use umba_fx_engine.Schema.{Tables, Quote, RateRefresh, Payload, IdempotencyKey}
use umba_fx_engine.Settings.{Settings}
use umba_fx_engine.Customers.Created.{Joined}
use umba_fx_engine.Customers.Laws.{Credit}
use umba_fx_engine.Quotes.{QuoteRequest}
use umba_fx_engine.Quotes.Created.{Quoted}
use umba_fx_engine.Executions.Checks.{executions_endpoint}
use umba_fx_engine.Executions.Rejections.{Request}
use umba_fx_engine.Executions.Spec.{Transfer}
use umba_fx_engine.Rates.Provider.{Reply}
use umba_fx_engine.Rates.Failure.{IsFailure}
use umba_fx_engine.Rates.Published.{Refreshed}

-- What was there is there still.
abbrev pub Stays : {A : Type 0} → Option A → Option A → Type 0
Stays none later = Unit
Stays (some a) later = later ≡ some a

module _ {A : Type 0} where
  pub Stays-some : {now later : Option A} {a : A} → Stays now later → now ≡ some a → later ≡ some a
  Stays-some {now} {later} {a} stays h = subst (λ o. Stays o later) h stays

  some-Stays :
      (now : Option A) {later : Option A}
      → ((a : A) → now ≡ some a → later ≡ some a)
      → Stays now later
  some-Stays none keep = tt
  some-Stays (some a) keep = keep a refl

  Stays-refl : (o : Option A) → Stays o o
  Stays-refl none = tt
  Stays-refl (some a) = refl

-- Rows are only added in front, and a key that is in use stays as it is.
pub record Extends (before after : Tables) : Type 0 where
  pub customers : IsSuffix before.customers after.customers
  pub entries : IsSuffix before.entries after.entries
  pub adjustments : IsSuffix before.adjustments after.adjustments
  pub quotes : IsSuffix before.quotes after.quotes
  pub legs : IsSuffix before.legs after.legs
  pub executions : IsSuffix before.executions after.executions
  pub snapshots : IsSuffix before.snapshots after.snapshots
  pub keys : (endpoint key : String) → Stays (before.keys endpoint key) (after.keys endpoint key)

pub Extends-refl : (t : Tables) → Extends t t
Extends-refl t = record {
  customers = suffix_refl _;
  entries = suffix_refl _;
  adjustments = suffix_refl _;
  quotes = suffix_refl _;
  legs = suffix_refl _;
  executions = suffix_refl _;
  snapshots = suffix_refl _;
  keys = λ endpoint key. Stays-refl (t.keys endpoint key);
}

pub Extends-trans : {t u v : Tables} → Extends t u → Extends u v → Extends t v
Extends-trans {t} x y = record {
  customers = IsSuffix-trans x.customers y.customers;
  entries = IsSuffix-trans x.entries y.entries;
  adjustments = IsSuffix-trans x.adjustments y.adjustments;
  quotes = IsSuffix-trans x.quotes y.quotes;
  legs = IsSuffix-trans x.legs y.legs;
  executions = IsSuffix-trans x.executions y.executions;
  snapshots = IsSuffix-trans x.snapshots y.snapshots;
  keys = λ endpoint key.
      some-Stays (t.keys endpoint key)
        (λ row h. Stays-some (y.keys endpoint key) (Stays-some (x.keys endpoint key) h));
}

pub same-Extends : {t u : Tables} → u ≡ t → Extends t u
same-Extends {t} h = subst (Extends t) (sym h) (Extends-refl t)

module _ {A : Type 0} where
  kept : {xs ys : List A} → ys ≡ xs → IsSuffix xs ys
  kept h = ([], sym h)

  added : {xs ys : List A} (new : List A) → ys ≡ new ++ xs → IsSuffix xs ys
  added new h = (new, sym h)

-- A transfer claims a key that was free.
Transfer-keys :
    {q : Request} {time : ℕ} {before : Tables} {p : Payload} {after : Tables}
    → Transfer q time before p after
    → (endpoint key : String) (row : IdempotencyKey) → before.keys endpoint key ≡ some row
    → after.keys endpoint key ≡ some row
Transfer-keys {q} x endpoint key row h =
    rw (x.keys endpoint key)
      (elim (Bool-cases (str_eq endpoint executions_endpoint && str_eq key q.idempotency_key)) [
        | inl claimed ↦
            let same_endpoint : endpoint ≡ executions_endpoint =
              ground (arith, eq_iff endpoint executions_endpoint) in
            let same_key : key ≡ q.idempotency_key = ground (arith, eq_iff key q.idempotency_key) in
            let free = x.unclaimed in cc
        | inr other ↦ rw other h
      ])

pub Joined-Extends :
    {id : ℕ} {before after : Tables} → Joined id before after → Extends before after
Joined-Extends {id} x = record {
  customers = added (id ∷ []) x.customers;
  entries = kept (rw x.others refl);
  adjustments = kept (rw x.others refl);
  quotes = kept (rw x.others refl);
  legs = kept (rw x.others refl);
  executions = kept (rw x.others refl);
  snapshots = kept (rw x.others refl);
  keys = λ endpoint key. rw x.others (Stays-refl _);
}

pub Credit-Extends :
    {c : ℕ} {k : Currency} {amount : Decimal} {before : Tables} {b : ℤ} {after : Tables}
    → Credit c k amount before b after
    → Extends before after
Credit-Extends x = record {
  customers = kept (rw x.others refl);
  entries = added (_ ∷ []) x.entries;
  adjustments = added (_ ∷ []) x.adjustments;
  quotes = kept (rw x.others refl);
  legs = kept (rw x.others refl);
  executions = kept (rw x.others refl);
  snapshots = kept (rw x.others refl);
  keys = λ endpoint key. rw x.others (Stays-refl _);
}

pub Quoted-Extends :
    {settings : Settings} {q : QuoteRequest} {time : ℕ} {before : Tables} {quote : Quote}
    {after : Tables}
    → Quoted settings q time before quote after
    → Extends before after
Quoted-Extends {quote} x = record {
  customers = kept (rw x.recorded refl);
  entries = kept (rw x.recorded refl);
  adjustments = kept (rw x.recorded refl);
  quotes = added (quote ∷ []) (rw x.recorded refl);
  legs = added x.rows (rw x.recorded refl);
  executions = kept (rw x.recorded refl);
  snapshots = kept (rw x.recorded refl);
  keys = λ endpoint key. rw x.recorded (Stays-refl _);
}

pub Transfer-Extends :
    {q : Request} {time : ℕ} {before : Tables} {p : Payload} {after : Tables}
    → Transfer q time before p after
    → Extends before after
Transfer-Extends {before} x = record {
  customers = kept (rw x.others refl);
  entries = added (_ ∷ _ ∷ []) x.entries;
  adjustments = kept (rw x.others refl);
  quotes = kept (rw x.others refl);
  legs = kept (rw x.others refl);
  executions = added (_ ∷ []) x.executions;
  snapshots = kept (rw x.others refl);
  keys = λ endpoint key. some-Stays (before.keys endpoint key) (Transfer-keys x endpoint key);
}

pub IsFailure-Extends :
    {f : ApiError} {before after : Tables} → IsFailure f before after → Extends before after
IsFailure-Extends x = record {
  customers = kept (rw x.recorded refl);
  entries = kept (rw x.recorded refl);
  adjustments = kept (rw x.recorded refl);
  quotes = kept (rw x.recorded refl);
  legs = kept (rw x.recorded refl);
  executions = kept (rw x.recorded refl);
  snapshots = kept (rw x.recorded refl);
  keys = λ endpoint key. rw x.recorded (Stays-refl _);
}

pub Refreshed-Extends :
    {settings : Settings} {reply : Reply} {time : ℕ} {before : Tables} {refresh : RateRefresh}
    {after : Tables}
    → Refreshed settings reply time before refresh after
    → Extends before after
Refreshed-Extends x = record {
  customers = kept (rw x.recorded refl);
  entries = kept (rw x.recorded refl);
  adjustments = kept (rw x.recorded refl);
  quotes = kept (rw x.recorded refl);
  legs = kept (rw x.recorded refl);
  executions = kept (rw x.recorded refl);
  snapshots = added (x.usd_eur ∷ x.usd_ngn ∷ x.usd_kes ∷ []) (rw x.recorded refl);
  keys = λ endpoint key. rw x.recorded (Stays-refl _);
}
