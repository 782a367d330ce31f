-- ===== src/Domain/StateMachine.antt =====
-- app/domain/order_state_machine.py
pub mod Progress
use order_management_system.Prelude.{List, [], ◌∷◌, not}
use order_management_system.Domain.Enums.{
  OrderStatus, new, validated, routed, partially_filled, filled, rejected, cancel_pending,
  cancelled, status_in,
}
use order_management_system.Domain.Errors.{Result, raise_if, invalid_state_transition}

-- ALLOWED_TRANSITIONS
abbrev pub allowed_transitions : OrderStatus → List OrderStatus
allowed_transitions new = validated ∷ OrderStatus.rejected ∷ []
allowed_transitions validated = routed ∷ OrderStatus.rejected ∷ cancel_pending ∷ []
allowed_transitions routed =
    partially_filled ∷ filled ∷ OrderStatus.rejected ∷ cancel_pending ∷ OrderStatus.cancelled ∷ []
allowed_transitions partially_filled = filled ∷ cancel_pending ∷ OrderStatus.cancelled ∷ []
allowed_transitions cancel_pending = filled ∷ OrderStatus.cancelled ∷ []
allowed_transitions filled = []
allowed_transitions OrderStatus.rejected = []
allowed_transitions OrderStatus.cancelled = []

abbrev pub open_order_statuses : List OrderStatus
open_order_statuses = validated ∷ routed ∷ partially_filled ∷ cancel_pending ∷ []

abbrev pub cancellable_order_statuses : List OrderStatus
cancellable_order_statuses = validated ∷ routed ∷ partially_filled ∷ []

abbrev pub terminal_order_statuses : List OrderStatus
terminal_order_statuses = filled ∷ OrderStatus.rejected ∷ OrderStatus.cancelled ∷ []

unfoldable pub ensure_transition_allowed : OrderStatus → OrderStatus → Result (Unit {0})
ensure_transition_allowed current target =
    raise_if (not (status_in target (allowed_transitions current)))
      (invalid_state_transition current target)
