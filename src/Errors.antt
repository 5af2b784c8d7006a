-- ===== src/Errors.antt =====
-- app/errors.py: the errors of the API and the HTTP status of each.
use piggyon.Base.{ℕ, List, String}
use piggyon.Snapshot.{ForbiddenAdjustment}

-- `ErrorCode` of app/models/api.py
pub data ErrorCode : Type 0 where
  invalid_input scenario_not_found run_not_found validation_required policy_violation
        run_not_acceptable solver_unavailable :
      ErrorCode

abbrev pub http_status_by_code : ErrorCode → ℕ
http_status_by_code invalid_input = 400
http_status_by_code scenario_not_found = 404
http_status_by_code run_not_found = 404
http_status_by_code validation_required = 422
http_status_by_code policy_violation = 409
http_status_by_code run_not_acceptable = 409
http_status_by_code solver_unavailable = 503

-- One entry of the details of `_reject_inconsistent_request`.
pub data Mismatch : Type 0 where
  other_policy_version : Mismatch
  unknown_service unknown_assumption : String → Mismatch

-- The details of an error, where the code gives some.
pub data Detail : Type 0 where
  no_detail unknown_order : Detail
  many_terminals : List String → Detail
  forbidden_types : List ForbiddenAdjustment → Detail
  derived_scenarios : List String → Detail
  mismatches : List Mismatch → Detail

-- What an endpoint raises: an `ApiError`, or an exception that only the last handler meets.
pub data ApiError : Type 0 where
  api_error : ErrorCode → Detail → ApiError
  internal : ApiError

-- the code that the response carries
abbrev pub code_of : ApiError → ErrorCode
code_of (api_error code _) = code
code_of internal = solver_unavailable

-- `error_response`, `unhandled_exception_handler`
abbrev pub status_of : ApiError → ℕ
status_of (api_error code _) = http_status_by_code code
status_of internal = 500
