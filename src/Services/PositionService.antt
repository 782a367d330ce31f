-- ===== src/Services/PositionService.antt =====
-- app/services/position_service.py
use order_management_system.Prelude.{ℕ, String, Option, none, some}
use order_management_system.Prelude.Int.{pos}
use order_management_system.Domain.Enums.{OrderSide}
use order_management_system.Domain.PositionRules.{
  PositionCalculation, calculate_position_after_fill, calculate_unrealized_pnl,
}
use order_management_system.Models.{Position, MarketPrice}
use order_management_system.Persistence.Session.{Tx, pure, lift, gets, ◌>>=◌, ◌>>◌}
use order_management_system.Persistence.Positions
use order_management_system.Persistence.Positions.{lookup_position, lookup_price}

-- The price by which a position is marked: the latest tick, or else the price of the fill.
abbrev pub mark_price : Option MarketPrice → ℕ → ℕ
mark_price none fill_price = fill_price
mark_price (some m) fill_price = m.price

abbrev pub fresh_position : ℕ → String → ℕ → Position
fresh_position account_id symbol mark = record {
  account_id = account_id;
  symbol = symbol;
  net_quantity = pos 0;
  average_entry_price = 0;
  realized_pnl = pos 0;
  unrealized_pnl = pos 0;
  last_mark_price = some mark;
}

-- The position that is there, or a new one that is added.
abbrev pub position_or_new : ℕ → String → ℕ → Option Position → Tx Position
position_or_new account_id symbol mark (some position) = pure position
position_or_new account_id symbol mark none = do
  Positions.add (fresh_position account_id symbol mark)
  pure (fresh_position account_id symbol mark)

abbrev pub updated_position : Position → PositionCalculation → ℕ → Position
updated_position position result mark = record position {
  net_quantity = result.net_quantity;
  average_entry_price = result.average_entry_price;
  realized_pnl = result.realized_pnl;
  last_mark_price = some mark;
  unrealized_pnl =
      calculate_unrealized_pnl result.net_quantity result.average_entry_price (some mark);
}

unfoldable pub apply_execution : ℕ → String → OrderSide → ℕ → ℕ → Tx (Unit {0})
apply_execution account_id symbol side fill_quantity fill_price = do
  existing ← gets (lookup_position account_id symbol)
  market_price ← gets (lookup_price symbol)
  let mark : ℕ = mark_price market_price fill_price
  position ← position_or_new account_id symbol mark existing
  result ← lift (
      calculate_position_after_fill position.net_quantity position.average_entry_price
        position.realized_pnl side fill_quantity fill_price)
  Positions.save (updated_position position result mark)
