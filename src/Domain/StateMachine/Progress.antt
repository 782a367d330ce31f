-- ===== src/Domain/StateMachine/Progress.antt =====
-- The order life cycle makes progress: ranks, terminal statuses, and walks along allowed transitions.
use order_management_system.Prelude.{ℕ, ◌<◌, ◌≡◌, ◌≢◌, ◌↔◌, refl, true, arith}
use order_management_system.Domain.Enums.{
  OrderStatus, new, validated, routed, partially_filled, filled, cancel_pending, status_in,
}
use order_management_system.Domain.Errors.{ok}
use order_management_system.Domain.StateMachine.{ensure_transition_allowed, terminal_order_statuses}

-- How far along its life an order is.
abbrev pub rank : OrderStatus → ℕ
rank new = 0
rank validated = 1
rank routed = 2
rank partially_filled = 3
rank cancel_pending = 4
rank filled = 5
rank OrderStatus.rejected = 5
rank OrderStatus.cancelled = 5

-- A transition is accepted only if it moves the order forward.
pub ensure_transition_allowed-rank :
    (s t : OrderStatus) → ensure_transition_allowed s t ≡ ok tt → rank s < rank t
unfolding ensure_transition_allowed
ensure_transition_allowed-rank s t h = ground arith

-- A status is terminal exactly when no transition out of it is accepted.
pub terminal_iff_stuck :
    (s : OrderStatus)
    → (status_in s terminal_order_statuses ≡ true)
      ↔ ((t : OrderStatus) → ensure_transition_allowed s t ≢ ok tt)
unfolding ensure_transition_allowed
terminal_iff_stuck new = (λ h. cc, λ h. absurd (h validated refl))
terminal_iff_stuck validated = (λ h. cc, λ h. absurd (h routed refl))
terminal_iff_stuck routed = (λ h. cc, λ h. absurd (h filled refl))
terminal_iff_stuck partially_filled = (λ h. cc, λ h. absurd (h filled refl))
terminal_iff_stuck cancel_pending = (λ h. cc, λ h. absurd (h filled refl))
terminal_iff_stuck filled = (λ h t. ground arith, λ h. refl)
terminal_iff_stuck OrderStatus.rejected = (λ h t. ground arith, λ h. refl)
terminal_iff_stuck OrderStatus.cancelled = (λ h t. ground arith, λ h. refl)
