-- ===== src/Application.antt =====
-- app/main.py: which handler answers which exception, and what is told of a request that does not
-- validate.
use Prim.Native.String.{◌++◌ as ◌<>◌}
use umba_fx_engine.Prelude.{
  ℕ, String, Bool, false, Option, none, some, List, [], ◌∷◌, any, map, str_eq, if◌then◌else◌,
}
use umba_fx_engine.Text.{codes, lower, is_inside, str_nat}
use umba_fx_engine.Errors.{ApiError, Exception, api, bad_request, validation_error}
use umba_fx_engine.Errors.Responses.{
  ProblemResponse, problem_response, Detail, api_error_handler, http_error_handler,
  unhandled_error_handler,
}

-- A part of an error's location: a field's name or a place in a list.
pub data Part : Type 0 where
  name : String → Part
  place : ℕ → Part

-- One of `exc.errors()`; the keys "type" and "msg" may be absent.
pub record FieldError : Type 0 where
  pub type_name : Option String
  pub loc : List Part
  pub msg : Option String

abbrev get_or_default : String → Option String → String
get_or_default d none = d
get_or_default d (some s) = s

-- `_is_json_decode_error`
unfoldable pub is_json_decode_error : List FieldError → Bool
is_json_decode_error =
    any
      (λ (e : FieldError). is_inside (codes "json") (lower (codes (get_or_default "" e.type_name))))

abbrev str_part : Part → String
str_part (name s) = s
str_part (place n) = str_nat n

abbrev is_body : Part → Bool
is_body (name s) = str_eq s "body"
is_body (place n) = false

abbrev pub without_body : List Part → List Part
without_body [] = []
without_body (p ∷ ps) = let rest = without_body ps in if is_body p then rest else p ∷ rest

-- `".".join(parts)`
abbrev pub join_dots : List Part → String
join_dots [] = ""
join_dots (p ∷ []) = str_part p
join_dots (p ∷ q ∷ ps) = str_part p <> "." <> join_dots (q ∷ ps)

abbrev or_body : List Part → String
or_body [] = "body"
or_body (p ∷ ps) = join_dots (p ∷ ps)

-- `_field_path`
unfoldable pub field_path : List Part → String
field_path location = or_body (without_body location)

-- `_safe_validation_errors`
unfoldable pub safe_validation_errors : List FieldError → List (String × String)
unfolding field_path
safe_validation_errors =
    map (λ (e : FieldError). (field_path e.loc, get_or_default "Invalid value." e.msg))

-- `error` of `request_validation_handler`.
unfoldable pub validation_failure : List FieldError → ApiError
unfolding is_json_decode_error safe_validation_errors
validation_failure errors =
    if is_json_decode_error errors
    then bad_request "Malformed JSON body."
    else validation_error "Request validation failed." (some (safe_validation_errors errors))

unfoldable pub request_validation_handler : Option String → List FieldError → ProblemResponse
unfolding validation_failure problem_response
request_validation_handler request_id errors =
    problem_response (validation_failure errors) request_id

-- What a request can end in, other than an answer.
pub data Failure : Type 0 where
  raised_by_service : Exception → Failure
  http : ℕ → Detail → Failure
  invalid : List FieldError → Failure

abbrev respond_to_exception : Option String → Exception → ProblemResponse
respond_to_exception request_id (api e) = api_error_handler request_id e
respond_to_exception request_id x = (unhandled_error_handler request_id x).0

-- The handlers that `create_app` registers, each for the class of its exception.
unfoldable pub respond_to : Option String → Failure → ProblemResponse
unfolding api_error_handler http_error_handler unhandled_error_handler request_validation_handler
respond_to request_id (raised_by_service x) = respond_to_exception request_id x
respond_to request_id (http status detail) = http_error_handler request_id status detail
respond_to request_id (invalid errors) = request_validation_handler request_id errors
