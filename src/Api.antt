-- ===== src/Api.antt =====
-- app/main.py and app/api: what each endpoint answers. FastAPI reads the request before the endpoint
-- runs, and answers 422 where it cannot; an exception that no handler knows is answered 500.
pub mod Accounts
pub mod Orders
pub mod Positions
pub mod Codes
pub mod Errors
pub mod Middleware
use order_management_system.Prelude.{ℕ}
use order_management_system.Domain.Errors.{
  Error, Result, ok, err, order_not_found, account_not_found, invalid_state_transition,
  insufficient_buying_power, broker_unavailable, duplicate_order, duplicate_account,
  invalid_cancellation, invalid_fill, integrity_error, data_error, invalid_operation, broker_error,
}

pub data Response (A : Type 0) : Type 0 where
  success : ℕ → A → Response A
  failure : ℕ → Error → Response A
  unprocessable : Response A

-- The `status_code` of `domain_exception_handler`; the last four are no domain errors.
unfoldable pub error_code : Error → ℕ
error_code (order_not_found id) = 404
error_code (account_not_found id) = 404
error_code (duplicate_account user_id) = 409
error_code (duplicate_order client_order_id) = 409
error_code (invalid_cancellation message) = 409
error_code (invalid_state_transition current target) = 409
error_code (invalid_fill message) = 409
error_code insufficient_buying_power = 422
error_code broker_unavailable = 503
error_code integrity_error = 500
error_code data_error = 500
error_code (broker_error message) = 500
error_code invalid_operation = 500

-- An endpoint that returns answers with the code of its route.
unfoldable pub respond : {A : Type 0} → ℕ → Result A → Response A
respond code (ok a) = success code a
respond code (err e) = failure (error_code e) e

abbrev pub status_of : {A : Type 0} → Response A → ℕ
status_of (success code a) = code
status_of (failure code e) = code
status_of unprocessable = 422
