-- ===== src/Tests/Http.antt =====
-- Requests over HTTP, and what is accepted of a body.
use umba_fx_engine.Prelude.{inl, ◌≡◌, ◌↔◌, refl, String, Option, none, some}
use umba_fx_engine.Prelude.Int.{pos, ◌<ℤ◌}
use umba_fx_engine.Money.Arithmetic.{Decimal}
use umba_fx_engine.Errors.{unsupported_media_type}
use umba_fx_engine.Errors.Responses.{problem_response}
use umba_fx_engine.Settings.{default_settings}
use umba_fx_engine.Session.{returned}
use umba_fx_engine.Session.Backend.{plain_engine, plain_engine-IsTransactional}
use umba_fx_engine.Middleware.{Incoming, problem}
use umba_fx_engine.Api.Schemas.{string, amount_field}
use umba_fx_engine.Api.Accepted.{amount_field_iff}
use umba_fx_engine.System.Requests.{post_executions}
use umba_fx_engine.System.Http.{Routed, route, application}
use umba_fx_engine.System.Responses.{IsResponse, application-IsResponse, application_unsupported}
use umba_fx_engine.Tests.Worlds.{small_world, small_tables, dollars-InRange}

abbrev execution_route : Routed
execution_route = route (λ id. post_executions id "key-1" 7)

abbrev json_request : Incoming
json_request = record {
  method = "POST";
  request_id = some "request-1";
  content_length = some "16";
  content_type = some "application/json; charset=utf-8";
}

application-IsResponse_example :
    IsResponse plain_engine default_settings execution_route "request-1" small_tables
      (application plain_engine default_settings json_request execution_route small_world)
application-IsResponse_example =
    application-IsResponse plain_engine-IsTransactional default_settings json_request
      execution_route small_world dollars-InRange

abbrev text_request : Incoming
text_request = record json_request { content_type = some "text/plain" }

application_unsupported_example :
    let (r, v) =
      application plain_engine default_settings text_request execution_route small_world in
    (r
      ≡ returned (record {
        reply = problem (
            problem_response
              (unsupported_media_type "Request body must be application/json.")
              (some "request-1"));
        request_id_header = none;
      }))
    × (v.db ≡ small_world.db)
application_unsupported_example =
    application_unsupported plain_engine-IsTransactional default_settings text_request
      execution_route small_world (inl refl) "16" refl (λ e. cc) (λ e. cc)

-- A parser that reads every text as 12.5.
abbrev twelve_and_half : Decimal
twelve_and_half = record { num = pos 125; scale = 1 }

abbrev parse : String → Option Decimal
parse s = some twelve_and_half

amount_field_iff_example : (amount_field parse (string "12.5") ≡ some twelve_and_half) ↔ (
    (s : String) × (string "12.5" ≡ string s)
    × (parse s ≡ some twelve_and_half)
    × (pos 0 <ℤ twelve_and_half.num))
amount_field_iff_example = amount_field_iff parse (string "12.5") twelve_and_half
