-- ===== src/Services/MarketDataService.antt =====
-- app/services/market_data_service.py, with the upsert of app/repositories/market_data_repository.py
-- and app/services/pnl_service.py.
pub mod Marks
use order_management_system.Prelude.{
  ℕ, String, Bool, true, false, Option, none, some, List, [], ◌∷◌, ◌++◌, map, ltb, leb, ◌==◌, ◌&&◌,
  str_eq, string_eq, nat_eq, if◌then◌else◌,
}
use order_management_system.Prelude.Int.{ℤ, pos, ◌+ℤ◌}
use order_management_system.Prelude.Table.{replace, filter_where}
use order_management_system.Domain.Errors.{Result}
use order_management_system.Domain.PositionRules.{calculate_unrealized_pnl}
use order_management_system.Models.{price_columns, position_columns, Db, MarketPrice, Position}
use order_management_system.Persistence.Session.{
  Tx, pure, gets, modify, check, check_columns, begin, ◌>>=◌, ◌>>◌,
}
use order_management_system.Persistence.Positions.{lookup_price}

abbrev pub price_symbol : MarketPrice → String
price_symbol m = m.symbol

abbrev pub new_price : String → ℕ → ℕ → MarketPrice
new_price symbol price observed_at = record {
  symbol = symbol;
  price = price;
  observed_at = observed_at;
}

-- The row that `upsert` writes; a flush checks that its price is positive and that it fits.
abbrev write_price : (Db → List MarketPrice) → MarketPrice → Tx Bool
write_price rows row = do
  check_columns (price_columns row)
  check (ltb 0 row.price)
  modify (λ db. record db { market_prices = rows db })
  pure true

-- Whether the tick was applied: one that is older than the stored price is not.
unfoldable pub upsert : String → ℕ → ℕ → Tx Bool
upsert symbol price observed_at = do
  found ← gets (lookup_price symbol)
  let row : MarketPrice = new_price symbol price observed_at
  elim found [
    | none ↦ write_price (λ db. db.market_prices ++ row ∷ []) row
    | some stored ↦
        if leb stored.observed_at observed_at
        then write_price (λ db. replace price_symbol row db.market_prices) row
        else pure false
  ]

-- A position after a tick of a symbol.
unfoldable pub marked : String → ℕ → Position → Position
marked symbol price position =
    if str_eq position.symbol symbol
    then record position {
      last_mark_price = some price;
      unrealized_pnl =
          calculate_unrealized_pnl position.net_quantity position.average_entry_price (some price);
    }
    else position

abbrev mark_positions : String → ℕ → Bool → Tx (Unit {0})
mark_positions symbol price false = pure tt
mark_positions symbol price true =
    modify (λ db. record db { positions = map (marked symbol price) db.positions })

-- The block of `apply_tick`, with the symbol in upper case.
unfoldable pub tick_block : String → ℕ → ℕ → Tx (Unit {0})
tick_block symbol price observed_at = do
  was_applied ← upsert symbol price observed_at
  mark_positions symbol price was_applied

-- `upper` is `str.upper`.
unfoldable pub apply_tick : (String → String) → String → ℕ → ℕ → Db → Result (Unit {0}) × Db
apply_tick upper symbol price observed_at = begin (tick_block (upper symbol) price observed_at)

pub record PnlSummary : Type 0 where
  pub account_id : ℕ
  pub realized_pnl : ℤ
  pub unrealized_pnl : ℤ
  pub total_pnl : ℤ

abbrev pub sum_ℤ : (Position → ℤ) → List Position → ℤ
sum_ℤ f [] = pos 0
sum_ℤ f (p ∷ ps) = f p +ℤ sum_ℤ f ps

-- `get_account_summary`
unfoldable pub get_account_summary : ℕ → Db → PnlSummary
get_account_summary account_id db =
    let positions = filter_where (λ (p : Position). p.account_id == account_id) db.positions in
    let realized = sum_ℤ (λ p. p.realized_pnl) positions in
    let unrealized = sum_ℤ (λ p. p.unrealized_pnl) positions in
    record {
      account_id = account_id;
      realized_pnl = realized;
      unrealized_pnl = unrealized;
      total_pnl = realized +ℤ unrealized;
    }
