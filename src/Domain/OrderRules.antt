-- ===== src/Domain/OrderRules.antt =====
-- app/domain/order_rules.py. Quantities and prices are counted in units of their own, so that a
-- quantity times a price is an amount of cash.
use order_management_system.Prelude.{ℕ, ◌*◌, if◌then◌else◌}
use order_management_system.Prelude.Int.{ℤ, pos, ltb_ℤ}
use order_management_system.Domain.Enums.{OrderSide, is_buy}
use order_management_system.Domain.Errors.{Result, raise_if, insufficient_buying_power}

abbrev pub required_buying_power : OrderSide → ℕ → ℕ → ℕ
required_buying_power side quantity price = if is_buy side then quantity * price else 0

-- The available cash may be negative; the required cash is not.
abbrev pub ensure_sufficient_buying_power : ℤ → ℕ → Result (Unit {0})
ensure_sufficient_buying_power available_cash required_cash =
    raise_if (ltb_ℤ available_cash (pos required_cash)) insufficient_buying_power
