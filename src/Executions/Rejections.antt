-- ===== src/Executions/Rejections.antt =====
-- app/services/executions.py: the error codes, what is logged of a refusal, and the handler of the
-- main `try` block.
use umba_fx_engine.Prelude.{
  ℕ, String, Bool, ◌||◌, Option, none, some, [], ◌∷◌, str_eq, if◌then◌else◌,
}
use umba_fx_engine.Errors.{Exception, api}
use umba_fx_engine.Observability.{execution_failure}
use umba_fx_engine.Session.{
  Outcome, returned, raised, Action, ◌>>◌, raise, count, log_event, warning, error, Field, uuid,
  string, null, rollback,
}
use umba_fx_engine.Session.Backend.{Engine}

abbrev pub error_idempotency_conflict : String
error_idempotency_conflict = "idempotency_conflict"

abbrev pub error_idempotency_key_missing : String
error_idempotency_key_missing = "idempotency_key_missing"

abbrev pub error_quote_not_found : String
error_quote_not_found = "quote_not_found"

abbrev pub error_quote_already_executed : String
error_quote_already_executed = "quote_already_executed"

abbrev pub error_quote_expired : String
error_quote_expired = "quote_expired"

abbrev pub error_insufficient_funds : String
error_insufficient_funds = "insufficient_funds"

-- `code in EXECUTION_REJECTION_CODES`
pub is_rejection_code : String → Bool
is_rejection_code code =
    str_eq code error_quote_not_found
    || str_eq code error_quote_already_executed
    || str_eq code error_quote_expired
    || str_eq code error_insufficient_funds

-- What a request brings.
pub record Request : Type 0 where
  pub quote_id : ℕ
  pub idempotency_key : String
  pub req_hash : String
  pub request_id : Option String

abbrev pub text_or_null : Option String → Field
text_or_null none = null
text_or_null (some s) = string s

abbrev pub uuid_or_null : Option ℕ → Field
uuid_or_null none = null
uuid_or_null (some id) = uuid id

-- `_log_rejected`
unfoldable pub log_rejected : String → Request → Action (Unit {0})
log_rejected error_code q = log_event "execution.rejected" warning (
    ("request_id", text_or_null q.request_id)
    ∷ ("quote_id", uuid q.quote_id)
    ∷ ("idempotency_key", string q.idempotency_key)
    ∷ ("error_code", string error_code)
    ∷ ("outcome", string "failure")
    ∷ [])

unfoldable pub error_code_of : Exception → String
error_code_of (api a) = a.code
error_code_of _ = "internal_error"

-- The body of `except Exception as exc`; the customer is known once the quote was read.
unfoldable pub on_failure : {A : Type 0} → Engine → Request → Option ℕ → Exception → Action A
unfolding is_rejection_code error_code_of
on_failure e q customer_id x =
    let code = error_code_of x in
    let rejection = is_rejection_code code in
    do
      rollback e
      count execution_failure
      log_event (if rejection then "execution.rejected" else "execution.failed")
          (if rejection then warning else error)
          (("request_id", text_or_null q.request_id)
            ∷ ("quote_id", uuid q.quote_id)
            ∷ ("customer_id", uuid_or_null customer_id)
            ∷ ("idempotency_key", string q.idempotency_key)
            ∷ ("error_code", string code)
            ∷ ("outcome", string "failure")
            ∷ [])
      raise x

abbrev pub handle : {A : Type 0} → (Exception → Action A) → Outcome A → Action A
handle handler (returned a) w = (returned a, w)
handle handler (raised x) w = handler x w

-- `try: … except Exception as exc: …`
unfoldable pub guarded : {A : Type 0} → Engine → Request → Option ℕ → Action A → Action A
unfolding on_failure
guarded e q customer_id m w = let (r, w') = m w in handle (on_failure e q customer_id) r w'
