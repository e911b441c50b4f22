-- ===== src/Errors.antt =====
-- app/utils/errors.py: the error type of the API and the functions that build it, and the other
-- exceptions that the services can meet.
pub mod Responses
use umba_fx_engine.Prelude.{ℕ, String, Bool, true, false, Option, none, List}

pub record ApiError : Type 0 where
  pub status_code : ℕ
  pub code : String
  pub title : String
  pub detail : String
  pub retryable : Bool
  -- The `field` and `message` of each rejected field.
  pub errors : Option (List (String × String))

abbrev plain : ℕ → String → String → String → Bool → ApiError
plain status code title detail retryable = record {
  status_code = status;
  code = code;
  title = title;
  detail = detail;
  retryable = retryable;
  errors = none;
}

abbrev pub bad_request : String → ApiError
bad_request detail = plain 400 "bad_request" "Bad request" detail false

abbrev pub validation_error : String → Option (List (String × String)) → ApiError
validation_error detail errors =
    let e = plain 422 "validation_error" "Validation error" detail false in
    record e { errors = errors }

abbrev pub unsupported_media_type : String → ApiError
unsupported_media_type detail =
    plain 415 "unsupported_content_type" "Unsupported content type" detail false

abbrev pub not_found : String → String → ApiError
not_found code detail = plain 404 code "Not found" detail false

abbrev pub conflict : String → String → ApiError
conflict code detail = plain 409 code "Conflict" detail false

-- The last three are retryable at every call of them.
abbrev pub service_unavailable : String → String → ApiError
service_unavailable code detail = plain 503 code "Service unavailable" detail true

abbrev pub bad_gateway : String → String → ApiError
bad_gateway code detail = plain 502 code "Bad upstream response" detail true

abbrev pub gateway_timeout : String → ApiError
gateway_timeout detail = plain 504 "upstream_timeout" "Upstream timeout" detail true

-- What a Python call can raise: an `ApiError`; an error of the database (a broken constraint, or a
-- value that its column cannot hold); an error of Python itself.
pub data Exception : Type 0 where
  api : ApiError → Exception
  integrity_error data_error : Exception
  value_error runtime_error key_error no_result_found : Exception
  invalid_operation : Exception
  -- Any other exception, by the name of its class.
  other : String → Exception
