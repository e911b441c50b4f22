-- ===== src/System/Retries.antt =====
-- A retry of an executed quote, any number of requests later.
use umba_fx_engine.Prelude.{
  ℕ, ◌≡◌, refl, sym, ap, ◌∙◌, String, false, some, inl, inr, subst, str_eq, arith, eq_iff,
}
use umba_fx_engine.Schema.{Tables, Payload, IdempotencyKey}
use umba_fx_engine.Settings.{Settings}
use umba_fx_engine.Session.{World, returned}
use umba_fx_engine.Session.Backend.{Engine, IsTransactional}
use umba_fx_engine.Executions.{stored_response}
use umba_fx_engine.Executions.Checks.{executions_endpoint}
use umba_fx_engine.Executions.Idempotency.{key-Transfer, execute_quote_replays}
use umba_fx_engine.Api.Routes.{execution_request, execute_quote_endpoint}
use umba_fx_engine.System.Requests.{post_executions, executed, perform, serve}
use umba_fx_engine.System.Effects.{Effect, AnsweredEffect, serve-Effect}
use umba_fx_engine.System.History.{Stays-some}
use umba_fx_engine.System.Sound.{IsSound}
use umba_fx_engine.System.Runs.{Reach, Effect-both, Reach-Extends}

-- The key of the request stands answered with `p`.
record IsAnswered (e : Engine) (key : String) (quote_id : ℕ) (t : Tables) (p : Payload)
    : Type 0 where
  nonempty : str_eq key "" ≡ false
  row : IdempotencyKey
  found : t.keys executions_endpoint key ≡ some row
  same_request : row.request_hash ≡ (execution_request e "" key quote_id).req_hash
  response : stored_response row.completed_at row.response_payload ≡ some p

executed-injective : {p p' : Payload} → executed p ≡ executed p' → p ≡ p'
executed-injective h = cc

AnsweredEffect-IsAnswered :
    (e : Engine) (settings : Settings) (id key : String) (quote_id : ℕ) {p : Payload}
    {before after : Tables}
    → AnsweredEffect e settings (post_executions id key quote_id) (executed p) before after
    → IsAnswered e key quote_id after p
unfolding execution_request
AnsweredEffect-IsAnswered e settings id key quote_id (p', same, nonempty, inl (time, t)) = record {
  nonempty = nonempty;
  row = _;
  found = key-Transfer t;
  same_request = refl;
  response = ap some (sym (executed-injective same));
}
AnsweredEffect-IsAnswered e settings id key quote_id (p', same, nonempty, inr (r, kept)) = record {
  nonempty = nonempty;
  row = r.row;
  found = rw kept r.found;
  same_request =
      ground (arith, eq_iff r.row.request_hash (execution_request e "" key quote_id).req_hash);
  response = r.response ∙ ap some (sym (executed-injective same));
}

serve-replays :
    {e : Engine}
    → IsTransactional e
    → (settings : Settings) (id key : String) (quote_id : ℕ) (w : World) {p : Payload}
    → IsAnswered e key quote_id w.db.committed p
    → let (r, v) = serve e settings (post_executions id key quote_id) w in
      (r ≡ returned (executed p)) × (v.db.committed ≡ w.db.committed)
unfolding serve perform execute_quote_endpoint execution_request
serve-replays {e} law settings id key quote_id w answered =
    let begun = record w { db = record w.db { work = w.db.committed } } in
    let run =
      execute_quote_replays e (execution_request e id key quote_id) begun answered.nonempty
        answered.found answered.same_request answered.response in
    rw (law.begin_lem w.db, run, law.rollback_lem) (refl, refl)

module _ {e : Engine} (law : IsTransactional e) (settings : Settings) where
  -- Once a request on sound tables is answered with an execution, every later request for the same quote
  -- under its key gets the same answer, whatever was served in between, and changes no committed table.
  pub retry_after-Reach :
      (id later : String) (key : String) (quote_id : ℕ) (w w' : World) {p : Payload}
      → IsSound w.db.committed
      → (serve e settings (post_executions id key quote_id) w).0 ≡ returned (executed p)
      → Reach e settings
          (serve e settings (post_executions id key quote_id) w).1.db.committed
          w'.db.committed
      → let (r, v) = serve e settings (post_executions later key quote_id) w' in
        (r ≡ returned (executed p)) × (v.db.committed ≡ w'.db.committed)
  retry_after-Reach id later key quote_id w w' {p} s answer run =
      let op = post_executions id key quote_id in
      let effect = serve-Effect law settings op w s.in_range in
      let after = (serve e settings op w).1.db.committed in
      let sound = (Effect-both e settings op (serve e settings op w).0 effect s).0 in
      let kept : AnsweredEffect e settings op (executed p) w.db.committed after =
        subst (λ r. Effect e settings op r w.db.committed after) answer effect in
      let answered = AnsweredEffect-IsAnswered e settings id key quote_id kept in
      let history = Reach-Extends law settings run sound in
      serve-replays law settings later key quote_id w' (record {
        nonempty = answered.nonempty;
        row = answered.row;
        found = Stays-some (history.keys executions_endpoint key) answered.found;
        same_request = answered.same_request;
        response = answered.response;
      })
