-- ===== src/System/Responses.antt =====
-- What the response to a request says of the committed tables, whatever happens.
use umba_fx_engine.Prelude.{
  ◌≡◌, ◌≢◌, refl, ap, ◌⊎◌, inl, inr, String, Option, none, some, str_eq, Bool-cases, subst,
}
use umba_fx_engine.Text.{codes}
use umba_fx_engine.Errors.{
  ApiError, Exception, api, unsupported_media_type, key_error, invalid_operation, value_error,
  integrity_error, data_error, runtime_error, no_result_found, other,
}
use umba_fx_engine.Errors.Responses.{
  internal_error, http_error, problem_response, api_error_handler, http_error_handler,
  unhandled_error_handler,
}
use umba_fx_engine.Schema.{Tables}
use umba_fx_engine.Application.{raised_by_service, validation_failure}
use umba_fx_engine.Settings.{Settings}
use umba_fx_engine.Session.{World, Outcome, returned, raised, Action, pure}
use umba_fx_engine.Session.Backend.{Transaction, Engine, IsTransactional}
use umba_fx_engine.Repositories.Balances.Range.{InRange}
use umba_fx_engine.Rates.Failure.{IsFailure}
use umba_fx_engine.Middleware.{
  Incoming, Handled, problem, Outgoing, has_unsupported_json_content, fresh_request_id,
  choose_request_id, dispatch,
}
use umba_fx_engine.Application.{respond_to, request_validation_handler}
use umba_fx_engine.System.Requests.{
  Operation, post_customers, get_customer_balances, post_credits, post_quotes, post_executions,
  post_rates_refresh, get_readyz, Answer, serve,
}
use umba_fx_engine.System.Http.{
  Routed, route, no_route, not_valid, handle_inside, handle_outside, call_route, state_request_id,
  application, ReplyEffect,
}
use umba_fx_engine.Session.{resume}
use umba_fx_engine.Middleware.Content.{media_type, unsupported_content}
use umba_fx_engine.System.Effects.{RefusedEffect, Effect, serve-Effect}

choose_request_id-returns :
    (e : Engine) (given : Option String) (w : World)
    → (v : World) × (choose_request_id e given w
        ≡ (returned (state_request_id e given w.next_uuid), v))
      × (v.db ≡ w.db)
unfolding choose_request_id fresh_request_id
choose_request_id-returns e none w = (_, refl, refl)
choose_request_id-returns e (some given) w = elim (Bool-cases (str_eq given "")) [
  | inl empty ↦ rw empty (_, refl, refl)
  | inr full ↦ rw full (_, refl, refl)
]

-- A refusal with an API error, and one with another exception.
RefusedEffect-api :
    (op : Operation) (f : ApiError) {before after : Tables}
    → RefusedEffect op (api f) before after
    → (after ≡ before) ⊎ IsFailure f before after
RefusedEffect-api (post_rates_refresh reply id) f {before} {after} (inl (g, is_api, failure)) =
    let same : g ≡ f = cc in inr (subst (λ x. IsFailure x before after) same failure)
RefusedEffect-api (post_rates_refresh reply id) f (inr same) = inl same
RefusedEffect-api post_customers f same = inl same
RefusedEffect-api (get_customer_balances c) f same = inl same
RefusedEffect-api (post_credits c payload) f same = inl same
RefusedEffect-api (post_quotes id payload) f same = inl same
RefusedEffect-api (post_executions id key quote_id) f same = inl same
RefusedEffect-api (get_readyz reachable) f same = inl same

RefusedEffect-same :
    (op : Operation) (x : Exception) {before after : Tables}
    → ((f : ApiError) → x ≢ api f)
    → RefusedEffect op x before after
    → after ≡ before
RefusedEffect-same (post_rates_refresh reply id) x differs (inl (f, is_api, failure)) =
    elim (differs f is_api) [ ]
RefusedEffect-same (post_rates_refresh reply id) x differs (inr same) = same
RefusedEffect-same post_customers x differs same = same
RefusedEffect-same (get_customer_balances c) x differs same = same
RefusedEffect-same (post_credits c payload) x differs same = same
RefusedEffect-same (post_quotes id payload) x differs same = same
RefusedEffect-same (post_executions id key quote_id) x differs same = same
RefusedEffect-same (get_readyz reachable) x differs same = same

-- Whatever a service raises is told as one error.
respond_to_service :
    (id : String) (x : Exception)
    → (f : ApiError) × (respond_to (some id) (raised_by_service x) ≡ problem_response f (some id))
unfolding respond_to api_error_handler unhandled_error_handler
respond_to_service id (api f) = (f, refl)
respond_to_service id key_error = (internal_error, refl)
respond_to_service id invalid_operation = (internal_error, refl)
respond_to_service id value_error = (internal_error, refl)
respond_to_service id integrity_error = (internal_error, refl)
respond_to_service id data_error = (internal_error, refl)
respond_to_service id runtime_error = (internal_error, refl)
respond_to_service id no_result_found = (internal_error, refl)
respond_to_service id (other name) = (internal_error, refl)

-- A response to a request that is named `id`.
pub record IsResponse (e : Engine) (settings : Settings) (routed : Routed) (id : String)
    (before : Tables) (p : Outcome (Outgoing Answer) × World) : Type 0 where
  pub response : Outgoing Answer
  pub responds : p.0 ≡ returned response
  pub effect :
      ReplyEffect e settings routed id response.reply response.request_id_header before
        p.1.db.committed

-- The way of a service's outcome through the handlers and the middleware.
abbrev leave : String → Outcome (Handled Answer) → Action (Outgoing Answer)
leave id r v =
    let (s, u) = resume (λ h. pure (record { reply = h; request_id_header = some id })) r v in
    handle_outside id s u

module _ (e : Engine) (settings : Settings) (op : String → Operation) (id : String)
    (before : Tables) where
  outside-IsResponse :
      (x : Exception) (v : World)
      → v.db.committed ≡ before
      → IsResponse e settings (route op) id before (handle_outside id (raised x) v)
  outside-IsResponse x v same =
      let (f, told) = respond_to_service id x in
      record { response = _; responds = refl; effect = (f, told, inl same) }

  api_error_told :
      (f : ApiError)
      → respond_to (some id) (raised_by_service (api f)) ≡ problem_response f (some id)
  unfolding respond_to api_error_handler
  api_error_told f = refl

  leave-IsResponse :
      (r : Outcome Answer) (v : World)
      → Effect e settings (op id) r before v.db.committed
      → let (s, u) = handle_inside id r v in
        IsResponse e settings (route op) id before (leave id s u)
  leave-IsResponse (returned a) v h = record {
    response = _;
    responds = refl;
    effect = (refl, (op, refl, h));
  }
  leave-IsResponse (raised (api f)) v h = record {
    response = _;
    responds = refl;
    effect = (f, api_error_told f, RefusedEffect-api (op id) f h);
  }
  leave-IsResponse (raised key_error) v h =
      outside-IsResponse key_error v (RefusedEffect-same (op id) key_error (λ f e. cc) h)
  leave-IsResponse (raised invalid_operation) v h =
      outside-IsResponse invalid_operation v
        (RefusedEffect-same (op id) invalid_operation (λ f e. cc) h)
  leave-IsResponse (raised value_error) v h =
      outside-IsResponse value_error v (RefusedEffect-same (op id) value_error (λ f e. cc) h)
  leave-IsResponse (raised integrity_error) v h =
      outside-IsResponse integrity_error v
        (RefusedEffect-same (op id) integrity_error (λ f e. cc) h)
  leave-IsResponse (raised data_error) v h =
      outside-IsResponse data_error v (RefusedEffect-same (op id) data_error (λ f e. cc) h)
  leave-IsResponse (raised runtime_error) v h =
      outside-IsResponse runtime_error v (RefusedEffect-same (op id) runtime_error (λ f e. cc) h)
  leave-IsResponse (raised no_result_found) v h =
      outside-IsResponse no_result_found v
        (RefusedEffect-same (op id) no_result_found (λ f e. cc) h)
  leave-IsResponse (raised (other name)) v h =
      outside-IsResponse (other name) v (RefusedEffect-same (op id) (other name) (λ f e. cc) h)

module _ {e : Engine} (law : IsTransactional e) (settings : Settings) where
  called-IsResponse :
      (routed : Routed) (id : String) (v : World)
      → InRange v.db.committed.balances
      → let (r, u) = call_route e settings routed id v in
        IsResponse e settings routed id v.db.committed (leave id r u)
  unfolding call_route respond_to http_error_handler request_validation_handler problem_response
  called-IsResponse (route op) id v range =
      let (r, u) = serve e settings (op id) v in
      leave-IsResponse e settings op id v.db.committed r u
        (serve-Effect law settings (op id) v range)
  called-IsResponse (no_route status detail) id v range = record {
    response = _;
    responds = refl;
    effect = (http_error status detail, refl, inl refl);
  }
  called-IsResponse (not_valid errors) id v range = record {
    response = _;
    responds = refl;
    effect = (validation_failure errors, refl, inl refl);
  }

  -- The application answers every request on balances that fit their column: it never raises. An answer
  -- has the request's id in its header, and was computed by the route with the effect that it tells. A
  -- problem tells one error under the request's id, and leaves the committed tables as they were, but for
  -- the row of a refresh that failed with that error.
  pub application-IsResponse :
      (request : Incoming) (routed : Routed) (w : World)
      → InRange w.db.committed.balances
      → IsResponse e settings routed
          (state_request_id e request.request_id w.next_uuid)
          w.db.committed
          (application e settings request routed w)
  unfolding application dispatch problem_response
  application-IsResponse request routed w range =
      let id = state_request_id e request.request_id w.next_uuid in
      let (v, chosen, same) = choose_request_id-returns e request.request_id w in
      let kept : v.db.committed ≡ w.db.committed = ap (λ (t : Transaction). t.committed) same in
      rw chosen (elim (Bool-cases (has_unsupported_json_content request)) [
        | inl unsupported ↦ rw unsupported (record {
          response = _;
          responds = refl;
          effect =
              (unsupported_media_type "Request body must be application/json.", refl, inl kept);
        })
        | inr supported ↦
            let (r, u) = call_route e settings routed id v in
            rw supported (
              subst (λ t. IsResponse e settings routed id t (leave id r u)) kept
                (called-IsResponse routed id v (rw kept range)))
      ])

  -- A POST, a PUT or a PATCH with a `Content-Length` other than 0, whose media type (the part of
  -- `Content-Type` before the first semicolon, without the space around it and in small letters) is not
  -- application/json, or which has no `Content-Type`, never reaches a route: it is answered with the 415
  -- that names the request, and leaves the database as it was; but the response has no `X-Request-ID`.
  pub application_unsupported :
      (request : Incoming) (routed : Routed) (w : World)
      → (request.method ≡ "POST") ⊎ ((request.method ≡ "PUT") ⊎ (request.method ≡ "PATCH"))
      → (length : String) → request.content_length ≡ some length
      → ¬ (length ≡ "0")
      → ¬ (media_type request ≡ codes "application/json")
      → let (r, v) = application e settings request routed w in
        (r
          ≡ returned (record {
            reply = problem (
                problem_response
                  (unsupported_media_type "Request body must be application/json.")
                  (some (state_request_id e request.request_id w.next_uuid)));
            request_id_header = none;
          }))
        × (v.db ≡ w.db)
  unfolding application dispatch
  application_unsupported request routed w method length sized nonempty foreign =
      let unsupported = unsupported_content request method length sized nonempty foreign in
      let (v, chosen, same) = choose_request_id-returns e request.request_id w in
      rw (chosen, unsupported) (refl, same)
