-- ===== src/Concurrency/Alone.antt =====
-- A call whose phases follow one another, with no other session between them, is a call of
-- `execute_quote`.
use umba_fx_engine.Prelude.{ℕ, zero, suc, ◌≡◌, refl, sym, ap, ◌∙◌, Bool, Option, none, some}
use umba_fx_engine.Prelude.Int.{ℤ}
use umba_fx_engine.Errors.{runtime_error}
use umba_fx_engine.Schema.{Quote, Payload, IdempotencyKey}
use umba_fx_engine.Session.{
  World, Outcome, returned, raised, Action, resume, ◌>>=◌, pure, raise, write, now,
}
use umba_fx_engine.Session.Backend.{Engine}
use umba_fx_engine.Executions.{
  claim_key, stored_response, check_same_request, require_key, execute_once, first_use, replay,
  on_existing_key, execute_quote,
}
use umba_fx_engine.Executions.Rejections.{Request, guarded, on_failure, handle}
use umba_fx_engine.Executions.Checks.{
  executions_endpoint, set_key, lock_quote, lock_balances, check_unexecuted, check_expiry,
  check_funds,
}
use umba_fx_engine.Executions.Effects.{completed_key}
use umba_fx_engine.Executions.Movement.{move_money, settle, publish}
use umba_fx_engine.Repositories.Balances.{ensure_balance, get_balance_for_update}
use umba_fx_engine.Concurrency.Phases.{
  Phase, fresh, looked, keyed, quoted, checked, opened, prepared, paying_first, paying_both, over,
  first_currency, second_currency, on_stored, on_found, look_up, check_quote, insert_row, is_absent,
  of_locked, pay, advance,
}
use umba_fx_engine.Concurrency.Brackets.{bind-cong, guarded-bind, bind_assoc, regroup}

-- The phases in a row, `n` of them.
abbrev pub advances : Engine → Request → ℕ → Phase → Action Phase
advances e q zero phase = pure phase
advances e q (suc n) phase = advance e q phase >>= advances e q n

-- The answer of a call that is over.
abbrev pub answer : Phase → Action (Payload × Bool)
answer (over r) w = (r, w)
answer _ w = raise runtime_error w

abbrev pub rest : Engine → Request → ℕ → Phase → Action (Payload × Bool)
rest e q n phase = advances e q n phase >>= answer

module _ (e : Engine) (q : Request) where
  pub rest-suc :
      (n : ℕ) (phase : Phase) (w : World)
      → rest e q (suc n) phase w ≡ (advance e q phase >>= rest e q n) w
  rest-suc n phase = bind_assoc (advance e q phase) (advances e q n) answer

  -- The main block from its checks on.
  settle-phases :
      (quote : Quote) (w : World)
      → (settle e q quote >>= publish e q quote) w
        ≡ (check_quote e quote >>= λ _. insert_row quote.customer_id (first_currency quote) >>= λ _.
              insert_row quote.customer_id (second_currency quote) >>= λ _.
              get_balance_for_update quote.customer_id (first_currency quote) >>= λ first.
              get_balance_for_update quote.customer_id (second_currency quote) >>= λ second.
              pay e q quote (of_locked quote first second))
            w
  unfolding settle check_quote insert_row lock_balances pay
  settle-phases quote =
      regroup (check_unexecuted e quote) (check_expiry e quote)
        (λ t. is_absent quote.customer_id (first_currency quote) t.balances)
        (λ t. is_absent quote.customer_id (second_currency quote) t.balances)
        (ensure_balance quote.customer_id (first_currency quote))
        (ensure_balance quote.customer_id (second_currency quote))
        (get_balance_for_update quote.customer_id (first_currency quote))
        (get_balance_for_update quote.customer_id (second_currency quote)) (of_locked quote)
        (λ locked. check_funds e quote locked.0) (λ locked. move_money e quote locked.0 locked.1)
        now (λ p time. write (set_key q.idempotency_key (completed_key q p time)))
        (publish e q quote)

  -- A phase under the handler, and those that follow.
  rest-guarded :
      {A : Type 0} (c : Option ℕ) (m : Action A) (next : A → Phase)
      (k : A → Action (Payload × Bool)) (n : ℕ) (phase : Phase) (w : World)
      → ((w : World) → advance e q phase w ≡ (guarded e q c m >>= λ a. pure (next a)) w)
      → ((a : A) (v : World) → rest e q n (next a) v ≡ guarded e q c (k a) v)
      → rest e q (suc n) phase w ≡ guarded e q c (m >>= k) w
  rest-guarded c m next k n phase w first later =
      rest-suc n phase w
      ∙ ap (λ (p : Outcome Phase × World). resume (rest e q n) p.0 p.1) (first w)
      ∙ bind_assoc (guarded e q c m) (λ a. pure (next a)) (rest e q n) w
      ∙ bind-cong (guarded e q c m) w later
      ∙ sym (guarded-bind e q c m k w)

  paying_both-rest :
      (quote : Quote) (own : Bool × Bool) (a b : ℤ) (w : World)
      → rest e q 1 (paying_both quote own a b) w
        ≡ guarded e q (some quote.customer_id) (pay e q quote (of_locked quote a b)) w
  unfolding advance
  paying_both-rest quote own a b w =
      after (guarded e q (some quote.customer_id) (pay e q quote (of_locked quote a b)) w)
    where
      after :
          (p : Outcome (Payload × Bool) × World)
          → (let (r, v) = resume (λ r. pure (over (returned r))) p.0 p.1 in
              let (r', v') = resume (advances e q 0) r v in resume answer r' v')
            ≡ p
      after (returned r, v) = refl
      after (raised x, v) = refl

  paying_first-rest :
      (quote : Quote) (own : Bool × Bool) (a : ℤ) (w : World)
      → rest e q 2 (paying_first quote own a) w
        ≡ guarded e q
            (some quote.customer_id)
            (get_balance_for_update quote.customer_id (second_currency quote) >>= λ b.
              pay e q quote (of_locked quote a b))
            w
  unfolding advance
  paying_first-rest quote own a w =
      rest-guarded (some quote.customer_id)
        (get_balance_for_update quote.customer_id (second_currency quote)) (paying_both quote own a)
        _ 1 (paying_first quote own a) w (λ w. refl) (paying_both-rest quote own a)

  prepared-rest :
      (quote : Quote) (own : Bool × Bool) (w : World)
      → rest e q 3 (prepared quote own) w
        ≡ guarded e q
            (some quote.customer_id)
            (get_balance_for_update quote.customer_id (first_currency quote) >>= λ a.
              get_balance_for_update quote.customer_id (second_currency quote) >>= λ b.
              pay e q quote (of_locked quote a b))
            w
  unfolding advance
  prepared-rest quote own w =
      rest-guarded (some quote.customer_id)
        (get_balance_for_update quote.customer_id (first_currency quote)) (paying_first quote own) _
        2 (prepared quote own) w (λ w. refl) (paying_first-rest quote own)

  -- From the insert of the second row on, and of the first.
  abbrev after_second : Quote → Action (Payload × Bool)
  after_second quote = get_balance_for_update quote.customer_id (first_currency quote) >>= λ a.
      get_balance_for_update quote.customer_id (second_currency quote) >>= λ b.
      pay e q quote (of_locked quote a b)

  abbrev after_first : Quote → Action (Payload × Bool)
  after_first quote =
      insert_row quote.customer_id (second_currency quote) >>= λ _. after_second quote

  opened-rest :
      (quote : Quote) (a : Bool) (w : World)
      → rest e q 4 (opened quote a) w ≡ guarded e q (some quote.customer_id) (after_first quote) w
  unfolding advance
  opened-rest quote a w =
      rest-guarded (some quote.customer_id) (insert_row quote.customer_id (second_currency quote))
        (λ b. prepared quote (a, b)) (λ _. after_second quote) 3 (opened quote a) w (λ w. refl)
        (λ b. prepared-rest quote (a, b))

  checked-rest :
      (quote : Quote) (w : World)
      → rest e q 5 (checked quote) w
        ≡ guarded e q
            (some quote.customer_id)
            (insert_row quote.customer_id (first_currency quote) >>= λ _. after_first quote)
            w
  unfolding advance
  checked-rest quote w =
      rest-guarded (some quote.customer_id) (insert_row quote.customer_id (first_currency quote))
        (opened quote) (λ _. after_first quote) 4 (checked quote) w (λ w. refl) (opened-rest quote)

  quoted-rest :
      (quote : Quote) (w : World)
      → rest e q 6 (quoted quote) w
        ≡ guarded e q (some quote.customer_id) (settle e q quote >>= publish e q quote) w
  unfolding advance guarded
  quoted-rest quote w =
      rest-guarded (some quote.customer_id) (check_quote e quote) (λ _. checked quote) _ 5
        (quoted quote) w (λ w. refl) (λ _. checked-rest quote)
      ∙ ap
          (λ (p : Outcome (Payload × Bool) × World).
            handle (on_failure e q (some quote.customer_id)) p.0 p.1)
          (sym (settle-phases quote w))

  keyed-rest : (w : World) → rest e q 7 keyed w ≡ execute_once e q w
  unfolding advance execute_once
  keyed-rest w =
      let lock = guarded e q none (lock_quote e q.quote_id) in
      rest-suc 6 keyed w
      ∙ bind_assoc lock (λ quote. pure (quoted quote)) (rest e q 6) w
      ∙ bind-cong lock w quoted-rest

  looked-rest : (w : World) → rest e q 8 looked w ≡ first_use e q w
  unfolding advance first_use
  looked-rest w =
      rest-suc 7 looked w
      ∙ bind_assoc (claim_key e q) (λ _. pure keyed) (rest e q 7) w
      ∙ bind-cong (claim_key e q) w (λ _. keyed-rest)

  on_stored-rest :
      (stored : Option Payload) (w : World)
      → (on_stored stored >>= rest e q 8) w ≡ replay e q stored w
  unfolding advance on_stored replay
  on_stored-rest none w = looked-rest w
  on_stored-rest (some payload) w = refl

  on_found-rest :
      (found : Option IdempotencyKey) (w : World)
      → (on_found q found >>= rest e q 8) w ≡ on_existing_key e q found w
  unfolding on_found on_existing_key
  on_found-rest none w = looked-rest w
  on_found-rest (some row) w =
      let stored = stored_response row.completed_at row.response_payload in
      bind_assoc (check_same_request q row) (λ _. on_stored stored) (rest e q 8) w
      ∙ bind-cong (check_same_request q row) w (λ _. on_stored-rest stored)

  -- The nine phases of a call, one after another with no other session between them, are
  -- `execute_quote`: the same answer or exception, and the same world after it.
  pub advances-eq-execute_quote :
      (w : World) → (advances e q 9 fresh >>= answer) w ≡ execute_quote e q w
  unfolding advance look_up execute_quote
  advances-eq-execute_quote w =
      rest-suc 8 fresh w
      ∙ bind_assoc (require_key q) _ (rest e q 8) w
      ∙ bind-cong (require_key q) w
          (λ _ v. on_found-rest (v.db.work.keys executions_endpoint q.idempotency_key) v)
