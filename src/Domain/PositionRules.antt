-- ===== src/Domain/PositionRules.antt =====
-- app/domain/position_rules.py
pub mod Balance
pub mod Equity
use order_management_system.Prelude.{
  ℕ, ◌+◌, ◌*◌, ◌/◌, ◌%◌, Bool, Option, none, some, min, ltb, ◌==◌, ◌||◌, if◌then◌else◌,
}
use order_management_system.Prelude.Int.{ℤ, pos, ◌+ℤ◌, ◌-ℤ◌, ◌*ℤ◌, abs, ltb_ℤ}
use order_management_system.Domain.Enums.{OrderSide, is_buy}
use order_management_system.Domain.Errors.{Result, ok, err, invalid_operation, ◌>>=◌}

-- `a / b` of `decimal` as the column that it is written to keeps it, in the unit of prices: to the nearest
-- unit, ties to the even one. Before it is written, `decimal` has twenty-eight digits.
unfoldable pub quotient : ℕ → ℕ → ℕ
quotient a b =
    let q = a / b in
    let r = a % b in if ltb (2 * r) b then q else if ltb b (2 * r) then q + 1 else q + q % 2

-- A division by zero raises.
unfoldable pub divide : ℕ → ℕ → Result ℕ
divide a b = if b == 0 then err invalid_operation else ok (quotient a b)

pub record PositionCalculation : Type 0 where
  pub net_quantity : ℤ
  pub average_entry_price : ℕ
  pub realized_pnl : ℤ

abbrev pub is_zero : ℤ → Bool
is_zero q = abs q == 0

abbrev pub signed_fill : OrderSide → ℕ → ℤ
signed_fill side fill_quantity =
    if is_buy side then pos fill_quantity else pos 0 -ℤ pos fill_quantity

-- The average price of what is left after a fill on the other side.
abbrev average_after_close : ℤ → ℤ → ℕ → ℕ → ℕ
average_after_close current_quantity new_quantity current_average_price fill_price =
    if is_zero new_quantity
    then 0
    else if ltb_ℤ (pos 0) (current_quantity *ℤ new_quantity)
    then current_average_price
    else fill_price

abbrev pnl_delta : ℤ → ℕ → ℕ → ℕ → ℤ
pnl_delta current_quantity current_average_price fill_price closing_quantity =
    if ltb_ℤ (pos 0) current_quantity
    then (pos fill_price -ℤ pos current_average_price) *ℤ pos closing_quantity
    else (pos current_average_price -ℤ pos fill_price) *ℤ pos closing_quantity

unfoldable pub calculate_position_after_fill :
    ℤ → ℕ → ℤ → OrderSide → ℕ → ℕ → Result PositionCalculation
calculate_position_after_fill current_quantity current_average_price current_realized_pnl side
      fill_quantity fill_price =
    let signed = signed_fill side fill_quantity in
    let new_quantity = current_quantity +ℤ signed in
    if is_zero current_quantity || ltb_ℤ (pos 0) (current_quantity *ℤ signed)
    then (do
      average ←
          divide (abs current_quantity * current_average_price + abs signed * fill_price)
            (abs new_quantity)
      ok (record {
        net_quantity = new_quantity;
        average_entry_price = average;
        realized_pnl = current_realized_pnl;
      }))
    else ok (record {
      net_quantity = new_quantity;
      average_entry_price =
          average_after_close current_quantity new_quantity current_average_price fill_price;
      realized_pnl =
          current_realized_pnl
          +ℤ pnl_delta current_quantity current_average_price fill_price
              (min (abs current_quantity) (abs signed));
    })

unfoldable pub calculate_unrealized_pnl : ℤ → ℕ → Option ℕ → ℤ
calculate_unrealized_pnl net_quantity average_entry_price none = pos 0
calculate_unrealized_pnl net_quantity average_entry_price (some mark_price) =
    if is_zero net_quantity
    then pos 0
    else (pos mark_price -ℤ pos average_entry_price) *ℤ net_quantity
