-- ===== src/Errors/Responses.antt =====
-- app/utils/errors.py: the one shape of an error response, and the three handlers that build it.
use Prim.Native.String.{◌++◌ as ◌<>◌}
use umba_fx_engine.Prelude.{
  ℕ, String, Bool, false, Option, none, some, List, ◌∷◌, str_eq, if◌then◌else◌,
}
use umba_fx_engine.Errors.{
  ApiError, Exception, api, integrity_error, data_error, value_error, runtime_error, key_error,
  no_result_found, invalid_operation, other,
}

-- The payload of `problem_response`; its "type" is always "about:blank".
pub record Problem : Type 0 where
  pub title : String
  pub status : ℕ
  pub detail : String
  pub instance_of : Option String
  pub code : String
  pub retryable : Bool
  pub errors : Option (List (String × String))

-- A response in `CONTENT_TYPE_PROBLEM_JSON`.
pub record ProblemResponse : Type 0 where
  pub status_code : ℕ
  pub content : Problem

-- `f"urn:request:{request_id}" if request_id else None`
abbrev pub instance_urn : Option String → Option String
instance_urn none = none
instance_urn (some id) = if str_eq id "" then none else some ("urn:request:" <> id)

-- `if error.errors`: no key without a rejected field.
abbrev pub listed_errors : Option (List (String × String)) → Option (List (String × String))
listed_errors (some (e ∷ es)) = some (e ∷ es)
listed_errors _ = none

unfoldable pub problem_response : ApiError → Option String → ProblemResponse
problem_response error request_id = record {
  status_code = error.status_code;
  content = record {
    title = error.title;
    status = error.status_code;
    detail = error.detail;
    instance_of = instance_urn request_id;
    code = error.code;
    retryable = error.retryable;
    errors = listed_errors error.errors;
  };
}

-- `exc` of an `ApiError`, and the request's id if the middleware has set one.
unfoldable pub api_error_handler : Option String → ApiError → ProblemResponse
unfolding problem_response
api_error_handler request_id exc = problem_response exc request_id

-- What an `HTTPException` carries: a text, or another value with its `str`.
pub data Detail : Type 0 where
  text other_value : String → Detail

abbrev pub str_detail : Detail → String
str_detail (text s) = s
str_detail (other_value s) = s

abbrev pub title_of : Detail → String
title_of (text s) = s
title_of (other_value s) = "HTTP error"

abbrev pub http_error : ℕ → Detail → ApiError
http_error status detail = record {
  status_code = status;
  code = "http_error";
  title = title_of detail;
  detail = str_detail detail;
  retryable = false;
  errors = none;
}

unfoldable pub http_error_handler : Option String → ℕ → Detail → ProblemResponse
unfolding problem_response
http_error_handler request_id status detail = problem_response (http_error status detail) request_id

-- `type(exc).__name__`
abbrev pub class_name : Exception → String
class_name (api e) = "ApiError"
class_name integrity_error = "IntegrityError"
class_name data_error = "DataError"
class_name value_error = "ValueError"
class_name runtime_error = "RuntimeError"
class_name key_error = "KeyError"
class_name no_result_found = "NoResultFound"
class_name invalid_operation = "InvalidOperation"
class_name (other name) = name

abbrev pub internal_error : ApiError
internal_error = record {
  status_code = 500;
  code = "internal_error";
  title = "Internal server error";
  detail = "An unexpected error occurred.";
  retryable = false;
  errors = none;
}

-- The response and the `error_type` that is logged with it.
unfoldable pub unhandled_error_handler : Option String → Exception → ProblemResponse × String
unfolding problem_response
unhandled_error_handler request_id exc =
    (problem_response internal_error request_id, class_name exc)
