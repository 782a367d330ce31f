-- ===== src/Api/Errors.antt =====
-- The answer to an exception: `domain_exception_handler` of app/main.py, with the class names and the
-- texts of app/domain/exceptions.py.
use Prim.Native.String.{◌++◌ as str_append}
use order_management_system.Prelude.{ℕ, ◌≡◌, refl, String, Option, none, some}
use order_management_system.Prelude.Uuid.{uuid_text}
use order_management_system.Domain.Enums.{status_value}
use order_management_system.Domain.Errors.{
  Error, order_not_found, account_not_found, invalid_state_transition, insufficient_buying_power,
  broker_unavailable, duplicate_order, duplicate_account, invalid_cancellation, invalid_fill,
  integrity_error, data_error, invalid_operation, broker_error,
}
use order_management_system.Api.{error_code}

-- `exc.__class__.__name__`, of a `DomainError`.
unfoldable pub error_name : Error → Option String
error_name (order_not_found id) = some "OrderNotFound"
error_name (account_not_found id) = some "AccountNotFound"
error_name (invalid_state_transition current target) = some "InvalidStateTransition"
error_name insufficient_buying_power = some "InsufficientBuyingPower"
error_name broker_unavailable = some "BrokerUnavailable"
error_name (duplicate_order client_order_id) = some "DuplicateOrder"
error_name (duplicate_account user_id) = some "DuplicateAccount"
error_name (invalid_cancellation reason) = some "InvalidCancellation"
error_name (invalid_fill reason) = some "InvalidFill"
error_name integrity_error = none
error_name data_error = none
error_name (broker_error message) = none
error_name invalid_operation = none

-- `str(exc)`, of a `DomainError`; the texts of the others are not shown.
unfoldable pub error_message : Error → String
error_message (order_not_found id) =
    str_append "Order " (str_append (uuid_text id) " was not found")
error_message (account_not_found id) =
    str_append "Account " (str_append (uuid_text id) " was not found")
error_message (invalid_state_transition current target) =
    str_append "Order cannot transition from "
      (str_append (status_value current) (str_append " to " (status_value target)))
error_message insufficient_buying_power = "Insufficient buying power"
error_message broker_unavailable = "Broker is temporarily unavailable"
error_message (duplicate_order client_order_id) =
    str_append "Order " (str_append client_order_id " already exists")
error_message (duplicate_account user_id) =
    str_append "Account for user " (str_append user_id " already exists")
error_message (invalid_cancellation reason) = reason
error_message (invalid_fill reason) = reason
error_message integrity_error = ""
error_message data_error = ""
error_message (broker_error message) = message
error_message invalid_operation = ""

pub record ErrorBody : Type 0 where
  pub error : String
  pub message : String
  pub path : String

-- The code and the content; no handler takes an exception that is not a `DomainError`.
unfoldable pub domain_exception_handler : String → Error → Option (ℕ × ErrorBody)
domain_exception_handler path exc = elim (error_name exc) [
  | none ↦ none
  | some name ↦
      some (error_code exc, record { error = name; message = error_message exc; path = path })
]

-- An exception that the handler does not take is an internal error.
unhandled :
    (path : String) (exc : Error) → domain_exception_handler path exc ≡ none → error_code exc ≡ 500
unfolding domain_exception_handler error_name error_code
unhandled path integrity_error h = refl
unhandled path data_error h = refl
unhandled path (broker_error message) h = refl
unhandled path invalid_operation h = refl
unhandled path (order_not_found id) h = cc h
unhandled path (account_not_found id) h = cc h
unhandled path (invalid_state_transition a b) h = cc h
unhandled path insufficient_buying_power h = cc h
unhandled path broker_unavailable h = cc h
unhandled path (duplicate_order s) h = cc h
unhandled path (duplicate_account s) h = cc h
unhandled path (invalid_cancellation s) h = cc h
unhandled path (invalid_fill s) h = cc h
