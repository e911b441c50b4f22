-- ===== src/Middleware.antt =====
-- app/middleware/request_id.py: every request gets an id, and a body that is not JSON is refused.
pub mod Content
use umba_fx_engine.Prelude.{
  String, Bool, true, false, not, ◌||◌, Option, none, some, str_eq, if◌then◌else◌,
}
use umba_fx_engine.Text.{codes, same_codes, lower, before, strip}
use umba_fx_engine.Errors.{unsupported_media_type}
use umba_fx_engine.Errors.Responses.{ProblemResponse, problem_response}
use umba_fx_engine.Session.{Action, ◌>>=◌, pure, uuid4}
use umba_fx_engine.Session.Backend.{Engine}

-- What the middleware reads of a request. A header that is absent is `none`.
pub record Incoming : Type 0 where
  pub method : String
  pub request_id : Option String
  pub content_length : Option String
  pub content_type : Option String

-- What leaves the application: an error, or what a route answers; and the header `X-Request-ID`.
pub data Handled (A : Type 0) : Type 0 where
  problem : ProblemResponse → Handled A
  answer : A → Handled A

pub record Outgoing (A : Type 0) : Type 0 where
  pub reply : Handled A
  pub request_id_header : Option String

abbrev pub has_body_method : String → Bool
has_body_method m = str_eq m "POST" || str_eq m "PUT" || str_eq m "PATCH"

abbrev is_empty_length : Option String → Bool
is_empty_length none = true
is_empty_length (some n) = str_eq n "0"

-- `request.headers.get("content-type", "")`
abbrev pub or_empty : Option String → String
or_empty none = ""
or_empty (some s) = s

-- `_has_unsupported_json_content`
unfoldable pub has_unsupported_json_content : Incoming → Bool
has_unsupported_json_content request =
    if not (has_body_method request.method)
    then false
    else if is_empty_length request.content_length
    then false
    else not (
        same_codes (lower (strip (before b';' (codes (or_empty request.content_type)))))
          (codes "application/json"))

-- `str(uuid4())`
unfoldable pub fresh_request_id : Engine → Action String
fresh_request_id e = do id ← uuid4; pure (e.str_uuid id)

-- `request.headers.get(HEADER_REQUEST_ID) or str(uuid4())`
unfoldable pub choose_request_id : Engine → Option String → Action String
unfolding fresh_request_id
choose_request_id e none = fresh_request_id e
choose_request_id e (some given) = if str_eq given "" then fresh_request_id e else pure given

-- `RequestIdMiddleware.dispatch`. `call_next` is the rest of the application, with the id that
-- `request.state` carries; what it raises goes through.
unfoldable pub dispatch :
    {A : Type 0} → Engine → Incoming → (String → Action (Handled A)) → Action (Outgoing A)
unfolding choose_request_id has_unsupported_json_content problem_response
dispatch e request call_next = do
  request_id ← choose_request_id e request.request_id
  if has_unsupported_json_content request
      then pure (record {
        reply = problem (
            problem_response (unsupported_media_type "Request body must be application/json.")
              (some request_id));
        request_id_header = none;
      })
      else do
        response ← call_next request_id
        pure (record { reply = response; request_id_header = some request_id })
