-- ===== src/System/Sound.antt =====
-- The invariant of the committed tables, and that a transfer and a credit keep it.
use umba_fx_engine.Prelude.{ℕ, ◌≡◌, refl, false, List, [], ◌∷◌, All, Bool-cases, inl, inr}
use umba_fx_engine.Prelude.Int.{ℤ, pos, ◌≤ℤ◌, ◌<ℤ◌, int_laws}
use umba_fx_engine.Errors.{ApiError}
use umba_fx_engine.Settings.{Settings}
use umba_fx_engine.Quotes.{QuoteRequest}
use umba_fx_engine.Quotes.Created.{Quoted}
use umba_fx_engine.Rates.Failure.{IsFailure}
use umba_fx_engine.Rates.Provider.{Reply}
use umba_fx_engine.Rates.Published.{Refreshed}
use umba_fx_engine.Customers.Created.{Joined}
use umba_fx_engine.Money.{Currency}
use umba_fx_engine.Money.Arithmetic.{Decimal}
use umba_fx_engine.Schema.{Tables, Quote, RateRefresh, LedgerEntry, Execution, debit, credit}
use umba_fx_engine.Repositories.Balances.{BalanceTable, is_row}
use umba_fx_engine.Repositories.Balances.Laws.{cash, is_row_iff}
use umba_fx_engine.Repositories.Balances.Range.{InRange}
use umba_fx_engine.Repositories.Ledger.Totals.{IsReconciled, net-credit, net-debit}
use umba_fx_engine.Customers.{credit_entry}
use umba_fx_engine.Customers.Laws.{Credit}
use umba_fx_engine.Executions.Rejections.{Request}
use umba_fx_engine.Executions.Checks.{is_executed}
use umba_fx_engine.Executions.Spec.{Transfer, transfer_entry, after_debit, after_transfer}
use umba_fx_engine.Schema.{Payload}

-- No two executions are of one quote.
abbrev pub IsOnce : List Execution → Type 0
IsOnce [] = Unit
IsOnce (x ∷ xs) = (is_executed x.quote_id xs ≡ false) × IsOnce xs

abbrev pub IsNonneg : BalanceTable → Type 0
IsNonneg table = (c : ℕ) (k : Currency) → pos 0 ≤ℤ cash table c k

pub record IsSound (t : Tables) : Type 0 where
  pub reconciled : IsReconciled t
  pub in_range : InRange t.balances
  pub nonneg : IsNonneg t.balances
  pub amounts : All (λ (x : LedgerEntry). pos 0 <ℤ x.amount) t.entries
  pub once : IsOnce t.executions

after_debit-nonneg :
    (quote : Quote) (table : BalanceTable) (c : ℕ) (k : Currency)
    → IsNonneg table
    → quote.source_amount ≤ℤ cash table quote.customer_id quote.source_currency
    → pos 0 ≤ℤ after_debit quote table c k
after_debit-nonneg quote table c k n covered =
    elim (Bool-cases (is_row quote.customer_id quote.source_currency c k)) [
      | inl here ↦
          let (ec, ek) = is_row_iff quote.customer_id quote.source_currency c k here in
          rw (here, ec, ek) (omega int_laws)
      | inr other ↦ rw other (n c k)
    ]

after_transfer-nonneg :
    (quote : Quote) (table : BalanceTable) (c : ℕ) (k : Currency)
    → IsNonneg table
    → quote.source_amount ≤ℤ cash table quote.customer_id quote.source_currency
    → pos 0 <ℤ quote.destination_amount
    → pos 0 ≤ℤ after_transfer quote table c k
after_transfer-nonneg quote table c k n covered more =
    let rest = after_debit-nonneg quote table c k n covered in
    elim (Bool-cases (is_row quote.customer_id quote.destination_currency c k)) [
      | inl here ↦ rw here (omega int_laws)
      | inr other ↦ rw other rest
    ]

module _ {q : Request} {time : ℕ} {before : Tables} {p : Payload} {after : Tables}
    (t : Transfer q time before p after) where
  credit_row : LedgerEntry
  credit_row =
      transfer_entry t.quote p.execution_id t.quote.destination_currency t.quote.destination_amount
        credit

  debit_row : LedgerEntry
  debit_row =
      transfer_entry t.quote p.execution_id t.quote.source_currency t.quote.source_amount debit

  Transfer-IsReconciled : IsReconciled before → IsReconciled after
  unfolding credit_row debit_row
  Transfer-IsReconciled r c k = rw (
    t.balances c k,
    t.entries,
    net-credit credit_row (debit_row ∷ before.entries) c k refl,
    net-debit debit_row before.entries c k refl,
    r c k,
  )

  -- A transfer keeps the invariant.
  pub Transfer-IsSound : IsSound before → IsSound after
  Transfer-IsSound s = record {
    reconciled = Transfer-IsReconciled s.reconciled;
    in_range = t.fits;
    nonneg = λ c k.
        rw (t.balances c k)
          (after_transfer-nonneg t.quote before.balances c k s.nonneg t.covered t.destination_pos);
    amounts = rw t.entries (t.destination_pos, (t.source_pos, s.amounts));
    once = rw t.executions (t.unexecuted, s.once);
  }

module _ {customer : ℕ} {k : Currency} {amount : Decimal} {before : Tables} {b : ℤ} {after : Tables}
    (t : Credit customer k amount before b after) where
  Credit-IsReconciled : IsReconciled before → IsReconciled after
  Credit-IsReconciled r c k' =
      rw
        (
          t.balances c k',
          t.entries,
          net-credit (credit_entry t.adjustment) before.entries c k' refl,
          t.of_row.0,
          t.of_row.1,
          t.of_row.2,
        )
        (elim (Bool-cases (is_row customer k c k')) [
          | inl here ↦
              let (ec, ek) = is_row_iff customer k c k' here in
              rw (here, t.result, ← r c k', ec, ek)
          | inr other ↦ rw other (r c k')
        ])

  -- A credit keeps the invariant.
  pub Credit-IsSound : IsSound before → IsSound after
  Credit-IsSound s = record {
    reconciled = Credit-IsReconciled s.reconciled;
    in_range = λ c k'. rw (t.balances c k') (elim (Bool-cases (is_row customer k c k')) [
      | inl here ↦ rw here t.result_fits
      | inr other ↦ rw other (s.in_range c k')
    ]);
    nonneg = λ c k'.
        let old = s.nonneg customer k in
        let more = t.amount_pos in
        let raised : pos 0 ≤ℤ b = rw t.result (omega int_laws) in
        rw (t.balances c k') (elim (Bool-cases (is_row customer k c k')) [
          | inl here ↦ rw here raised
          | inr other ↦ rw other (s.nonneg c k')
        ]);
    amounts = rw (t.entries, t.of_row.2) (t.amount_pos, s.amounts);
    once = rw t.others s.once;
  }

-- The invariant reads what balances count for, entries and executions only.
same-IsSound :
    {before after : Tables}
    → ((c : ℕ) (k : Currency) → cash after.balances c k ≡ cash before.balances c k)
    → after.entries ≡ before.entries
    → after.executions ≡ before.executions
    → IsSound before
    → IsSound after
same-IsSound b x y s = record {
  reconciled = λ c k. rw (b c k, x) (s.reconciled c k);
  in_range = λ c k. rw (b c k) (s.in_range c k);
  nonneg = λ c k. rw (b c k) (s.nonneg c k);
  amounts = rw x s.amounts;
  once = rw y s.once;
}

-- A new customer keeps the invariant.
pub Joined-IsSound :
    {id : ℕ} {before after : Tables} → Joined id before after → IsSound before → IsSound after
Joined-IsSound t = same-IsSound t.balances (rw t.others refl) (rw t.others refl)

-- A new quote keeps the invariant.
pub Quoted-IsSound :
    {settings : Settings} {q : QuoteRequest} {time : ℕ} {before : Tables} {quote : Quote}
    {after : Tables}
    → Quoted settings q time before quote after
    → IsSound before
    → IsSound after
Quoted-IsSound t =
    same-IsSound (λ c k. rw t.recorded refl) (rw t.recorded refl) (rw t.recorded refl)

-- A failed refresh keeps the invariant.
pub IsFailure-IsSound :
    {x : ApiError} {before after : Tables}
    → IsFailure x before after
    → IsSound before
    → IsSound after
IsFailure-IsSound t =
    same-IsSound (λ c k. rw t.recorded refl) (rw t.recorded refl) (rw t.recorded refl)

-- New rates keep the invariant.
pub Refreshed-IsSound :
    {settings : Settings} {reply : Reply} {time : ℕ} {before : Tables} {refresh : RateRefresh}
    {after : Tables}
    → Refreshed settings reply time before refresh after
    → IsSound before
    → IsSound after
Refreshed-IsSound t =
    same-IsSound (λ c k. rw t.recorded refl) (rw t.recorded refl) (rw t.recorded refl)
