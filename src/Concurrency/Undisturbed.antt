-- ===== src/Concurrency/Undisturbed.antt =====
-- What a session relies on is not disturbed by what the others commit: it is under its locks.
use umba_fx_engine.Prelude.{
  find?, subst, ℕ, Bool, ◌≡◌, refl, sym, ap, ◌∙◌, true, arith, ◌==◌, ◌⊎◌, inl, inr, Bool-cases,
  str_eq, eq_iff,
}
use umba_fx_engine.Prelude.Int.{ℤ}
use umba_fx_engine.Money.{Currency}
use umba_fx_engine.Schema.{Tables, Quote, Payload}
use umba_fx_engine.Repositories.Balances.{is_row}
use umba_fx_engine.Repositories.Balances.Laws.{cash, is_row_iff}
use umba_fx_engine.Executions.Rejections.{Request}
use umba_fx_engine.Executions.Checks.{executions_endpoint, is_executed}
use umba_fx_engine.Executions.Spec.{Transfer}
use umba_fx_engine.Executions.Idempotency.{find-id}
use umba_fx_engine.Concurrency.Phases.{
  Phase, fresh, looked, keyed, quoted, checked, opened, prepared, paying_first, paying_both, over,
  first_currency, second_currency, Lock, key_lock, quote_lock, balance_lock, held_locks, IsHeld,
}
use umba_fx_engine.Concurrency.Protocol.{IsChecked, Relies}

-- From `t` to `u`, nothing that the locks of a session cover has changed, nor the quote that its
-- request names.
pub record IsUndisturbed (q : Request) (phase : Phase) (t u : Tables) : Type 0 where
  pub key :
      IsHeld (key_lock q.idempotency_key) (held_locks q phase)
      → u.keys executions_endpoint q.idempotency_key ≡ t.keys executions_endpoint q.idempotency_key
  pub quotes :
      find? (λ (x : Quote). x.id == q.quote_id) u.quotes
      ≡ find? (λ (x : Quote). x.id == q.quote_id) t.quotes
  pub execution :
      IsHeld (quote_lock q.quote_id) (held_locks q phase)
      → is_executed q.quote_id u.executions ≡ is_executed q.quote_id t.executions
  pub row :
      (c : ℕ) (k : Currency)
      → IsHeld (balance_lock c k) (held_locks q phase)
      → cash u.balances c k ≡ cash t.balances c k

IsChecked-kept :
    (q : Request) (quote : Quote) {t u : Tables}
    → u.keys executions_endpoint q.idempotency_key ≡ t.keys executions_endpoint q.idempotency_key
    → find? (λ (x : Quote). x.id == q.quote_id) u.quotes
      ≡ find? (λ (x : Quote). x.id == q.quote_id) t.quotes
    → is_executed q.quote_id u.executions ≡ is_executed q.quote_id t.executions
    → IsChecked q quote t
    → IsChecked q quote u
IsChecked-kept q quote {t} key quotes execution c =
    let id = find-id q.quote_id t.quotes c.found in
    record {
      unclaimed = key ∙ c.unclaimed;
      found = quotes ∙ c.found;
      unexecuted = rw (id, execution, ← id) c.unexecuted;
      time = c.time;
      in_time = c.in_time;
    }

pub Relies-kept :
    (q : Request) (phase : Phase) {t u : Tables}
    → IsUndisturbed q phase t u
    → Relies q t phase
    → Relies q u phase
Relies-kept q fresh d r = tt
Relies-kept q looked d r = tt
Relies-kept q keyed d r = d.key (inl refl) ∙ r
Relies-kept q (quoted quote) d (unclaimed, found) =
    (d.key (inr (inl refl)) ∙ unclaimed, d.quotes ∙ found)
Relies-kept q (checked quote) d c =
    IsChecked-kept q quote (d.key (inr (inl refl))) d.quotes (d.execution (inl refl)) c
Relies-kept q (opened quote a) d c =
    IsChecked-kept q quote (d.key (inr (inl refl))) d.quotes (d.execution (inl refl)) c
Relies-kept q (prepared quote own) d c =
    IsChecked-kept q quote (d.key (inr (inl refl))) d.quotes (d.execution (inl refl)) c
Relies-kept q (paying_first quote own first) d (c, read) = (
  IsChecked-kept q quote (d.key (inr (inr (inl refl)))) d.quotes (d.execution (inr (inl refl))) c,
  read ∙ sym (d.row quote.customer_id (first_currency quote) (inl refl)),
)
Relies-kept q (paying_both quote own first second) d (c, read, read') = (
  IsChecked-kept q quote (d.key (inr (inr (inr (inl refl))))) d.quotes
      (d.execution (inr (inr (inl refl)))) c,
  read ∙ sym (d.row quote.customer_id (first_currency quote) (inr (inl refl))),
  read' ∙ sym (d.row quote.customer_id (second_currency quote) (inl refl)),
)
Relies-kept q (over r) d relies = tt

-- Both balances of a transfer are under its locks.
sorted-cases :
    (quote : Quote)
    → ((first_currency quote ≡ quote.source_currency)
        × (second_currency quote ≡ quote.destination_currency))
      ⊎ ((first_currency quote ≡ quote.destination_currency)
          × (second_currency quote ≡ quote.source_currency))
sorted-cases quote = ground arith

pub source-IsHeld :
    (q : Request) (quote : Quote) (own : Bool × Bool) (first second : ℤ)
    → IsHeld
        (balance_lock quote.customer_id quote.source_currency)
        (held_locks q (paying_both quote own first second))
source-IsHeld q quote own first second = elim (sorted-cases quote) [
  | inl (e, _) ↦ inr (inl (ap (balance_lock quote.customer_id) (sym e)))
  | inr (_, e) ↦ inl (ap (balance_lock quote.customer_id) (sym e))
]

pub destination-IsHeld :
    (q : Request) (quote : Quote) (own : Bool × Bool) (first second : ℤ)
    → IsHeld
        (balance_lock quote.customer_id quote.destination_currency)
        (held_locks q (paying_both quote own first second))
destination-IsHeld q quote own first second = elim (sorted-cases quote) [
  | inl (_, e) ↦ inl (ap (balance_lock quote.customer_id) (sym e))
  | inr (e, _) ↦ inr (inl (ap (balance_lock quote.customer_id) (sym e)))
]

module _ {q : Request} {quote : Quote} (own : Bool × Bool) (first second : ℤ) {time : ℕ}
    {t : Tables} {p : Payload} {u : Tables} (x : Transfer q time t p u) (of_phase : x.quote ≡ quote)
    (q' : Request) (phase : Phase)
    (disjoint : (l : Lock)
      → IsHeld l (held_locks q (paying_both quote own first second))
      → IsHeld l (held_locks q' phase)
      → ⊥) where
  Transfer-key :
      IsHeld (key_lock q'.idempotency_key) (held_locks q' phase)
      → u.keys executions_endpoint q'.idempotency_key
        ≡ t.keys executions_endpoint q'.idempotency_key
  Transfer-key h =
      x.keys executions_endpoint q'.idempotency_key
      ∙ elim (Bool-cases (str_eq q'.idempotency_key q.idempotency_key)) [
        | inl same ↦
            let e : q'.idempotency_key ≡ q.idempotency_key =
              ground (arith, eq_iff q'.idempotency_key q.idempotency_key) in
            absurd
              (disjoint (key_lock q'.idempotency_key) (inr (inr (inr (inl (ap key_lock e))))) h)
        | inr differs ↦ rw differs (ground arith)
      ]

  Transfer-execution :
      IsHeld (quote_lock q'.quote_id) (held_locks q' phase)
      → is_executed q'.quote_id u.executions ≡ is_executed q'.quote_id t.executions
  Transfer-execution h = elim (Bool-cases (x.quote.id == q'.quote_id)) [
    | inl same ↦
        let id = find-id q.quote_id t.quotes x.found in
        let e : q'.quote_id ≡ q.quote_id = ground arith in
        absurd (disjoint (quote_lock q'.quote_id) (inr (inr (inl (ap quote_lock e)))) h)
    | inr differs ↦ rw x.executions (ground arith)
  ]

  Transfer-row :
      (c : ℕ) (k : Currency)
      → IsHeld (balance_lock c k) (held_locks q' phase)
      → cash u.balances c k ≡ cash t.balances c k
  Transfer-row c k h =
      x.balances c k
      ∙ elim (Bool-cases (is_row x.quote.customer_id x.quote.destination_currency c k)) [
        | inl here ↦ absurd (
            covered x.quote.destination_currency here (
              subst
                (λ (y : Quote).
                  IsHeld (balance_lock y.customer_id y.destination_currency)
                    (held_locks q (paying_both quote own first second)))
                (sym of_phase) (destination-IsHeld q quote own first second)))
        | inr elsewhere ↦
            elim (Bool-cases (is_row x.quote.customer_id x.quote.source_currency c k)) [
              | inl here ↦ absurd (
                  covered x.quote.source_currency here (
                    subst
                      (λ (y : Quote).
                        IsHeld (balance_lock y.customer_id y.source_currency)
                          (held_locks q (paying_both quote own first second)))
                      (sym of_phase) (source-IsHeld q quote own first second)))
              | inr other ↦ rw (elsewhere, other) refl
            ]
      ]
    where
      covered :
          (k' : Currency)
          → is_row x.quote.customer_id k' c k ≡ true
          → IsHeld
              (balance_lock x.quote.customer_id k')
              (held_locks q (paying_both quote own first second))
          → ⊥
      covered k' here mine =
          let (ec, ek) = is_row_iff x.quote.customer_id k' c k here in
          disjoint (balance_lock c k)
            (subst (λ l. IsHeld l (held_locks q (paying_both quote own first second)))
              (rw (ec, ek) refl) mine)
            h

  pub Transfer-IsUndisturbed : IsUndisturbed q' phase t u
  Transfer-IsUndisturbed = record {
    key = Transfer-key;
    quotes = rw x.others refl;
    execution = Transfer-execution;
    row = Transfer-row;
  }
