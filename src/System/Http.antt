-- ===== src/System/Http.antt =====
-- A request from the middleware to the response: app/middleware/request_id.py around the routes, with
-- the handlers of app/main.py. Starlette runs the handlers of `ApiError`, `HTTPException` and
-- `RequestValidationError` inside the middleware, and the one of `Exception` outside of it.
use umba_fx_engine.Prelude.{ℕ, ◌≡◌, ◌⊎◌, String, Option, none, some, List, str_eq, if◌then◌else◌}
use umba_fx_engine.Errors.{ApiError, api}
use umba_fx_engine.Errors.Responses.{problem_response, Detail}
use umba_fx_engine.Schema.{Tables}
use umba_fx_engine.Settings.{Settings}
use umba_fx_engine.Session.{Outcome, returned, raised, Action, pure, raise}
use umba_fx_engine.Session.Backend.{Engine}
use umba_fx_engine.Rates.Failure.{IsFailure}
use umba_fx_engine.Middleware.{Incoming, Handled, problem, answer, Outgoing, dispatch}
use umba_fx_engine.Application.{FieldError, raised_by_service, http, invalid, respond_to}
use umba_fx_engine.System.Requests.{Operation, Answer, serve}
use umba_fx_engine.System.Effects.{AnsweredEffect}

-- What the framework makes of a path and a body: an operation, once the request has its id, an
-- `HTTPException` or a list of errors of validation.
pub data Routed : Type 0 where
  route : (String → Operation) → Routed
  no_route : ℕ → Detail → Routed
  not_valid : List FieldError → Routed

-- The handlers inside the middleware.
abbrev pub handle_inside : String → Outcome Answer → Action (Handled Answer)
handle_inside id (returned a) = pure (answer a)
handle_inside id (raised (api f)) =
    pure (problem (respond_to (some id) (raised_by_service (api f))))
handle_inside id (raised x) = raise x

unfoldable pub call_route : Engine → Settings → Routed → String → Action (Handled Answer)
unfolding serve respond_to
call_route e settings (route op) id w =
    let (r, v) = serve e settings (op id) w in handle_inside id r v
call_route e settings (no_route status detail) id w =
    pure (problem (respond_to (some id) (http status detail))) w
call_route e settings (not_valid errors) id w =
    pure (problem (respond_to (some id) (invalid errors))) w

-- `request.state.request_id` after the middleware has set it.
abbrev pub state_request_id : Engine → Option String → ℕ → String
state_request_id e none next = e.str_uuid next
state_request_id e (some given) next = if str_eq given "" then e.str_uuid next else given

-- The handler of `Exception`, outside the middleware.
abbrev pub handle_outside : String → Outcome (Outgoing Answer) → Action (Outgoing Answer)
handle_outside id (returned out) = pure out
handle_outside id (raised x) = pure (record {
  reply = problem (respond_to (some id) (raised_by_service x));
  request_id_header = none;
})

unfoldable pub application : Engine → Settings → Incoming → Routed → Action (Outgoing Answer)
unfolding dispatch call_route respond_to
application e settings request routed w =
    let (r, v) = dispatch e request (call_route e settings routed) w in
    handle_outside (state_request_id e request.request_id w.next_uuid) r v

-- What a response says of the tables. An answer carries the request's id in its header and was computed
-- by a route; a problem is one error's, names the request, and leaves nothing but the row of a refresh
-- that failed with that error.
abbrev pub ReplyEffect :
    Engine → Settings → Routed → String → Handled Answer → Option String → Tables → Tables → Type 0
ReplyEffect e settings routed id (answer a) header before after =
    (header ≡ some id)
    × ((op : String → Operation) × (routed ≡ route op)
        × AnsweredEffect e settings (op id) a before after)
ReplyEffect e settings routed id (problem p) header before after =
    (f : ApiError) × (p ≡ problem_response f (some id))
    × ((after ≡ before) ⊎ IsFailure f before after)
