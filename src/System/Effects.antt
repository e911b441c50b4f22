-- ===== src/System/Effects.antt =====
-- What each request does to the committed tables, for every answer and every exception.
use umba_fx_engine.Prelude.{
  ℕ, ◌≡◌, refl, sym, ap, ◌∙◌, ◌⊎◌, inl, inr, String, Bool, true, false, Option, none, some, subst,
  str_eq,
}
use umba_fx_engine.Prelude.Int.{ℤ}
use umba_fx_engine.Errors.{ApiError, Exception, api}
use umba_fx_engine.Schema.{Tables, Quote, RateRefresh, Payload}
use umba_fx_engine.Settings.{Settings}
use umba_fx_engine.Session.{World, Outcome, returned, raised, Action, resume, pure}
use umba_fx_engine.Session.Laws.{KeepsCommitted}
use umba_fx_engine.Session.Backend.{Transaction, Engine, IsTransactional}
use umba_fx_engine.Customers.Created.{Joined}
use umba_fx_engine.Customers.Laws.{Credit}
use umba_fx_engine.Quotes.Created.{Quoted}
use umba_fx_engine.Executions.Spec.{Transfer}
use umba_fx_engine.Executions.Replays.{IsReplay}
use umba_fx_engine.Rates.Provider.{Reply}
use umba_fx_engine.Rates.Failure.{IsFailure}
use umba_fx_engine.Rates.Published.{Refreshed}
use umba_fx_engine.Api.Schemas.{money_text}
use umba_fx_engine.Api.Routes.{quote_request, execution_request, quote_response, refresh_response}
use umba_fx_engine.Repositories.Balances.Range.{InRange}
use umba_fx_engine.Session.Laws.{keeps_rules, KeepsCommitted-run, returned-injective}
use umba_fx_engine.Session.Atomic.{IsAtomic-run}
use umba_fx_engine.Customers.{create_customer, get_balances, credit_balance}
use umba_fx_engine.Customers.Created.{create_customer-Joined}
use umba_fx_engine.Customers.Laws.{credit_balance-Credit}
use umba_fx_engine.Customers.Atomic.{
  KeepsCommitted-get_balances, IsAtomic-create_customer, credit_balance-IsAtomic,
}
use umba_fx_engine.Quotes.{create_quote}
use umba_fx_engine.Quotes.Created.{create_quote-Quoted}
use umba_fx_engine.Quotes.Atomic.{create_quote-IsAtomic}
use umba_fx_engine.Executions.{execute_quote}
use umba_fx_engine.Executions.Rejections.{Request}
use umba_fx_engine.Executions.Correct.{execute_quote-Transfer}
use umba_fx_engine.Executions.Atomic.{execute_quote-atomic}
use umba_fx_engine.Executions.Replays.{execute_quote-IsReplay, execute_quote-nonempty}
use umba_fx_engine.Rates.{refresh_rates, rates_freshness_status, status_of}
use umba_fx_engine.Repositories.Rates.{get_latest_current_rate}
use umba_fx_engine.Rates.Failure.{refresh_rates-IsFailure, refresh_rates-others}
use umba_fx_engine.Rates.Refreshed.{refresh_rates-Refreshed}
use umba_fx_engine.Api.Routes.{
  create_customer_endpoint, get_balances_endpoint, credit_balance_endpoint, create_quote_endpoint,
  execute_quote_endpoint, refresh_rates_endpoint, readyz,
}
use umba_fx_engine.System.Requests.{
  Operation, post_customers, get_customer_balances, post_credits, post_quotes, post_executions,
  post_rates_refresh, get_readyz, Answer, customer, balances, credited, quoted, executed, refreshed,
  ready, perform, serve,
}

-- A refusal, whatever the exception: only a refresh leaves a trace, the row of the failed refresh.
abbrev pub RefusedEffect : Operation → Exception → Tables → Tables → Type 0
RefusedEffect (post_rates_refresh reply id) x before after =
    ((f : ApiError) × (x ≡ api f) × IsFailure f before after) ⊎ (after ≡ before)
RefusedEffect _ x before after = after ≡ before

-- An answer: it says what was done.
abbrev pub AnsweredEffect : Engine → Settings → Operation → Answer → Tables → Tables → Type 0
AnsweredEffect e settings post_customers answer before after =
    (id : ℕ) × (answer ≡ customer id) × Joined id before after
AnsweredEffect e settings (post_credits c payload) answer before after =
    (b : ℤ) × (answer ≡ credited (record { currency = payload.currency; amount = money_text b }))
    × Credit c payload.currency payload.amount before b after
AnsweredEffect e settings (post_quotes id payload) answer before after =
    (time : ℕ) × (quote : Quote) × (answer ≡ quoted (quote_response quote))
    × Quoted settings (quote_request id payload) time before quote after
AnsweredEffect e settings (post_executions id key quote_id) answer before after =
    (p : Payload) × (answer ≡ executed p)
    × (str_eq key "" ≡ false)
    × (((time : ℕ) × Transfer (execution_request e id key quote_id) time before p after)
        ⊎ (IsReplay (execution_request e id key quote_id) before p × (after ≡ before)))
AnsweredEffect e settings (post_rates_refresh reply id) answer before after =
    (time : ℕ) × (refresh : RateRefresh) × (answer ≡ refreshed (refresh_response refresh))
    × Refreshed settings reply time before refresh after
AnsweredEffect e settings _ answer before after = after ≡ before

abbrev pub Effect : Engine → Settings → Operation → Outcome Answer → Tables → Tables → Type 0
Effect e settings op (raised x) before after = RefusedEffect op x before after
Effect e settings op (returned answer) before after =
    AnsweredEffect e settings op answer before after

module _ {A : Type 0} (e : Engine) (settings : Settings) (op : Operation) (m : Action A)
    (w : World) where
  run-Effect :
      (f : A → Answer) (p : Outcome A × World)
      → m w ≡ p
      → ((a : A) (v : World)
          → m w ≡ (returned a, v)
          → AnsweredEffect e settings op (f a) w.db.committed v.db.committed)
      → ((x : Exception) (v : World)
          → m w ≡ (raised x, v)
          → RefusedEffect op x w.db.committed v.db.committed)
      → let (r, v) = resume (λ a. pure (f a)) p.0 p.1 in
        Effect e settings op r w.db.committed v.db.committed
  run-Effect f (returned a, v) h answered refused = answered a v h
  run-Effect f (raised x, v) h answered refused = refused x v h

  run2-Effect :
      {B : Type 0} (f : A → B) (g : B → Answer) (p : Outcome A × World)
      → m w ≡ p
      → ((a : A) (v : World)
          → m w ≡ (returned a, v)
          → AnsweredEffect e settings op (g (f a)) w.db.committed v.db.committed)
      → ((x : Exception) (v : World)
          → m w ≡ (raised x, v)
          → RefusedEffect op x w.db.committed v.db.committed)
      → let (s, u) = resume (λ a. pure (f a)) p.0 p.1 in
        let (r, v) = resume (λ b. pure (g b)) s u in
        Effect e settings op r w.db.committed v.db.committed
  run2-Effect f g (returned a, v) h answered refused = answered a v h
  run2-Effect f g (raised x, v) h answered refused = refused x v h

KeepsCommitted-status_of :
    (settings : Settings) (last : Option ℕ) → KeepsCommitted (status_of settings last)
unfolding status_of
KeepsCommitted-status_of settings none = search keeps_rules
KeepsCommitted-status_of settings (some last) = search keeps_rules

KeepsCommitted-readyz :
    (settings : Settings) (reachable : Bool) → KeepsCommitted (readyz settings reachable)
unfolding readyz rates_freshness_status get_latest_current_rate
KeepsCommitted-readyz settings false = search keeps_rules
KeepsCommitted-readyz settings true = search (keeps_rules, KeepsCommitted-status_of) depth 12

module _ {e : Engine} (law : IsTransactional e) (settings : Settings) (w : World)
    (start : w.db.work ≡ w.db.committed) (range : InRange w.db.work.balances) where
  -- An operation on tables that fit their columns, at the start of its transaction.
  perform-Effect :
      (op : Operation)
      → let (r, v) = perform e settings op w in Effect e settings op r w.db.committed v.db.committed
  unfolding perform create_customer_endpoint get_balances_endpoint credit_balance_endpoint
      create_quote_endpoint execute_quote_endpoint refresh_rates_endpoint
  perform-Effect post_customers =
      run-Effect e settings post_customers (create_customer e) w customer (create_customer e w) refl
        (λ id v h.
          let (r, joined) = create_customer-Joined law w in
          (
            w.next_uuid,
            ap customer (returned-injective (sym (ap (λ p. p.0) h) ∙ r)),
            rw (← start, ← ap (λ p. p.1) h) joined,
          ))
        (λ x v h. IsAtomic-run (IsAtomic-create_customer e) h)
  perform-Effect (get_customer_balances c) =
      run2-Effect e settings (get_customer_balances c) (get_balances e c) w _ balances
        (get_balances e c w) refl (λ a v h. KeepsCommitted-run (KeepsCommitted-get_balances e c) h)
        (λ x v h. KeepsCommitted-run (KeepsCommitted-get_balances e c) h)
  perform-Effect (post_credits c payload) =
      run2-Effect e settings (post_credits c payload)
        (credit_balance e c payload.currency payload.amount) w _ credited
        (credit_balance e c payload.currency payload.amount w) refl
        (λ b v h. (
          b,
          refl,
          rw (← start) (credit_balance-Credit law c payload.currency payload.amount w h range),
        ))
        (λ x v h. IsAtomic-run (credit_balance-IsAtomic e c payload.currency payload.amount) h)
  perform-Effect (post_quotes id payload) =
      let q = quote_request id payload in
      run2-Effect e settings (post_quotes id payload) (create_quote e settings q) w _ quoted
        (create_quote e settings q w) refl
        (λ quote v h. (
          w.clock w.readings,
          quote,
          refl,
          rw (← start) (create_quote-Quoted law settings q w h).0,
        ))
        (λ x v h. IsAtomic-run (create_quote-IsAtomic e settings q) h)
  perform-Effect (post_executions id key quote_id) =
      let q = execution_request e id key quote_id in
      run2-Effect e settings (post_executions id key quote_id) (execute_quote e q) w _ executed
        (execute_quote e q w) refl (λ r v h. executed-Effect q r v h)
        (λ x v h.
          IsAtomic-run {m = execute_quote e q} (record { at = execute_quote-atomic law q }) h)
    where
      executed-Effect :
          (q : Request) (r : Payload × Bool) (v : World)
          → execute_quote e q w ≡ (returned r, v)
          → (p : Payload) × (executed r.0 ≡ executed p)
            × (str_eq q.idempotency_key "" ≡ false)
            × (((time : ℕ) × Transfer q time w.db.committed p v.db.committed)
                ⊎ (IsReplay q w.db.committed p × (v.db.committed ≡ w.db.committed)))
      executed-Effect q (p, false) v h = (
        p,
        refl,
        execute_quote-nonempty e q w h,
        inl (w.clock w.readings, rw (← start) (execute_quote-Transfer law q w h range)),
      )
      executed-Effect q (p, true) v h =
          let (replayed, same) = execute_quote-IsReplay law q w h range in
          (
            p,
            refl,
            execute_quote-nonempty e q w h,
            inr (rw (← start) replayed, ap (λ (t : Transaction). t.committed) same),
          )
  perform-Effect (post_rates_refresh reply id) =
      let run = refresh_rates e settings reply (some id) in
      run2-Effect e settings (post_rates_refresh reply id) run w _ refreshed (run w) refl
        (λ refresh v h. (
          w.clock w.readings,
          refresh,
          refl,
          rw (← start) (refresh_rates-Refreshed law settings reply (some id) w h),
        ))
        (λ x v h. refused-Effect reply id x v h)
    where
      refused-Effect :
          (reply : Reply) (id : String) (x : Exception) (v : World)
          → refresh_rates e settings reply (some id) w ≡ (raised x, v)
          → ((f : ApiError) × (x ≡ api f) × IsFailure f w.db.committed v.db.committed)
            ⊎ (v.db.committed ≡ w.db.committed)
      refused-Effect reply id x v h =
          let raises = ap (λ p. p.0) h in
          let last = ap (λ p. p.1.db.committed) h in
          elim (refresh_rates-others law settings reply (some id) w raises) [
            | inl (f, is_api) ↦ inl (
              f,
              is_api,
              subst (IsFailure f w.db.committed) last (
                  refresh_rates-IsFailure law settings reply (some id) w
                    (raises ∙ ap raised is_api)),
            )
            | inr same ↦ inr (sym last ∙ same)
          ]
  perform-Effect (get_readyz reachable) =
      run-Effect e settings (get_readyz reachable) (readyz settings reachable) w ready
        (readyz settings reachable w) refl
        (λ a v h. KeepsCommitted-run (KeepsCommitted-readyz settings reachable) h)
        (λ x v h. KeepsCommitted-run (KeepsCommitted-readyz settings reachable) h)

module _ {e : Engine} (law : IsTransactional e) (settings : Settings) where
  -- On balances that fit their column, a request does exactly what its answer says, for every route. A
  -- refused request does nothing to the committed tables, whatever the exception, but for the row of a
  -- failed refresh.
  pub serve-Effect :
      (op : Operation) (w : World)
      → InRange w.db.committed.balances
      → let (r, v) = serve e settings op w in Effect e settings op r w.db.committed v.db.committed
  unfolding serve
  serve-Effect op w range =
      let begun = record w { db = record w.db { work = w.db.committed } } in
      rw (law.begin_lem w.db, law.rollback_lem (perform e settings op begun).1.db)
        (perform-Effect law settings begun refl range op)
