-- ===== src/Concurrency/Others.antt =====
-- What another request commits between two phases does not disturb the sessions.
use umba_fx_engine.Prelude.{◌==◌, false, ℕ, ◌≡◌, refl, inl, inr, Bool-cases}
use umba_fx_engine.Errors.{Exception}
use umba_fx_engine.Schema.{Tables}
use umba_fx_engine.Settings.{Settings}
use umba_fx_engine.Money.{Currency}
use umba_fx_engine.Session.{Outcome, returned, raised}
use umba_fx_engine.Session.Backend.{Engine}
use umba_fx_engine.Repositories.Balances.{is_row}
use umba_fx_engine.Repositories.Balances.Laws.{cash, is_row_iff}
use umba_fx_engine.Executions.Rejections.{Request}
use umba_fx_engine.System.Requests.{
  Operation, post_customers, get_customer_balances, post_credits, post_quotes, post_executions,
  post_rates_refresh, get_readyz, Answer,
}
use umba_fx_engine.System.Effects.{Effect, RefusedEffect, AnsweredEffect}
use umba_fx_engine.Concurrency.Phases.{Phase, balance_lock, held_locks, IsHeld}
use umba_fx_engine.Concurrency.Undisturbed.{IsUndisturbed}
use umba_fx_engine.Concurrency.Interleaving.{Shared, MayServe}

module _ (q : Request) (phase : Phase) {t u : Tables} where
  unrelated-IsUndisturbed :
      u.keys ≡ t.keys
      → u.quotes ≡ t.quotes
      → u.executions ≡ t.executions
      → ((c : ℕ) (k : Currency)
          → IsHeld (balance_lock c k) (held_locks q phase)
          → cash u.balances c k ≡ cash t.balances c k)
      → IsUndisturbed q phase t u
  unrelated-IsUndisturbed keys quotes executions row = record {
    key = λ _. rw keys refl;
    quotes = rw quotes refl;
    execution = λ _. rw executions refl;
    row = row;
  }

  same-IsUndisturbed : u ≡ t → IsUndisturbed q phase t u
  same-IsUndisturbed same =
      unrelated-IsUndisturbed (rw same refl) (rw same refl) (rw same refl) λ c k h. rw same refl

module _ (e : Engine) (settings : Settings) (requests : ℕ → Request) (s : Shared) (j : ℕ)
    {u : Tables} where
  RefusedEffect-IsUndisturbed :
      (op : Operation) (x : Exception)
      → RefusedEffect op x s.world.db.committed u
      → IsUndisturbed (requests j) (s.phases j) s.world.db.committed u
  RefusedEffect-IsUndisturbed (post_rates_refresh reply id) x (inl (f, is_api, failure)) =
      unrelated-IsUndisturbed (requests j) (s.phases j) (rw failure.recorded refl)
        (rw failure.recorded refl) (rw failure.recorded refl) λ c k h. rw failure.recorded refl
  RefusedEffect-IsUndisturbed (post_rates_refresh reply id) x (inr same) =
      same-IsUndisturbed (requests j) (s.phases j) same
  RefusedEffect-IsUndisturbed post_customers x same =
      same-IsUndisturbed (requests j) (s.phases j) same
  RefusedEffect-IsUndisturbed (get_customer_balances c) x same =
      same-IsUndisturbed (requests j) (s.phases j) same
  RefusedEffect-IsUndisturbed (post_credits c payload) x same =
      same-IsUndisturbed (requests j) (s.phases j) same
  RefusedEffect-IsUndisturbed (post_quotes id payload) x same =
      same-IsUndisturbed (requests j) (s.phases j) same
  RefusedEffect-IsUndisturbed (post_executions id key quote_id) x same =
      same-IsUndisturbed (requests j) (s.phases j) same
  RefusedEffect-IsUndisturbed (get_readyz reachable) x same =
      same-IsUndisturbed (requests j) (s.phases j) same

  AnsweredEffect-IsUndisturbed :
      (op : Operation) (a : Answer)
      → MayServe requests s op u
      → AnsweredEffect e settings op a s.world.db.committed u
      → IsUndisturbed (requests j) (s.phases j) s.world.db.committed u
  AnsweredEffect-IsUndisturbed post_customers a may (id, answered, joined) =
      unrelated-IsUndisturbed (requests j) (s.phases j) (rw joined.others refl)
        (rw joined.others refl) (rw joined.others refl) λ c k h. joined.balances c k
  AnsweredEffect-IsUndisturbed (get_customer_balances c) a may same =
      same-IsUndisturbed (requests j) (s.phases j) same
  AnsweredEffect-IsUndisturbed (post_credits c payload) a may (b, answered, credit) =
      unrelated-IsUndisturbed (requests j) (s.phases j) (rw credit.others refl)
        (rw credit.others refl) (rw credit.others refl)
        λ c' k h. elim (Bool-cases (is_row c payload.currency c' k)) [
          | inl here ↦
              let (ec, ek) = is_row_iff c payload.currency c' k here in
              absurd (may j (rw (← ec, ← ek) h))
          | inr other ↦ rw (credit.balances c' k, other) refl
        ]
  AnsweredEffect-IsUndisturbed (post_quotes id payload) a may (time, quote, answered, x) =
      let new : (quote.id == (requests j).quote_id) ≡ false = may j quote (rw x.recorded refl) in
      record {
        key = λ _. rw x.recorded refl;
        quotes = rw x.recorded (rw new refl);
        execution = λ _. rw x.recorded refl;
        row = λ c k _. rw x.recorded refl;
      }
  AnsweredEffect-IsUndisturbed (post_executions id key quote_id) a may effect = absurd may
  AnsweredEffect-IsUndisturbed (post_rates_refresh reply id) a may (time, refresh, answered, r) =
      unrelated-IsUndisturbed (requests j) (s.phases j) (rw r.recorded refl) (rw r.recorded refl)
        (rw r.recorded refl) λ c k h. rw r.recorded refl
  AnsweredEffect-IsUndisturbed (get_readyz reachable) a may same =
      same-IsUndisturbed (requests j) (s.phases j) same

  pub Effect-IsUndisturbed :
      (op : Operation) (r : Outcome Answer)
      → MayServe requests s op u
      → Effect e settings op r s.world.db.committed u
      → IsUndisturbed (requests j) (s.phases j) s.world.db.committed u
  Effect-IsUndisturbed op (returned a) may = AnsweredEffect-IsUndisturbed op a may
  Effect-IsUndisturbed op (raised x) may = RefusedEffect-IsUndisturbed op x
