-- ===== src/Persistence/Positions.antt =====
-- app/repositories/position_repository.py and market_data_repository.py
use order_management_system.Prelude.{
  ℕ, String, ◌≡◌, ◌↔◌, Bool, true, Option, [], ◌∷◌, ◌++◌, ◌==◌, str_eq, str_eq_iff, ◌&&◌, arith, Eq,
  string_eq, not,
}
use order_management_system.Prelude.Table.{find, replace, is_some}
use order_management_system.Models.{Db, Position, MarketPrice, position_checks, position_columns}
use order_management_system.Persistence.Session.{
  Tx, gets, modify, check, check_columns, ◌>>=◌, ◌>>◌,
}

abbrev pub PositionKey : Type 0
PositionKey = ℕ × String

abbrev pub position_key : Position → PositionKey
position_key p = (p.account_id, p.symbol)

abbrev pub position_key_beq : PositionKey → PositionKey → Bool
position_key_beq (a, s) (b, t) = a == b && str_eq s t

pub position_key_beq_iff : (k l : PositionKey) → (position_key_beq k l ≡ true) ↔ (k ≡ l)
position_key_beq_iff (a, s) (b, t) = ground (arith, str_eq_iff s t)

instance abbrev pub position_key_eq : Eq PositionKey
position_key_eq = record { beq = position_key_beq; beq_iff = position_key_beq_iff }

abbrev pub lookup_position : ℕ → String → Db → Option Position
lookup_position account_id symbol db = find position_key (account_id, symbol) db.positions

abbrev pub save : Position → Tx (Unit {0})
save position = do
  check_columns (position_columns position)
  check (position_checks position)
  modify (λ db. record db { positions = replace position_key position db.positions })

abbrev pub add : Position → Tx (Unit {0})
add position = do
  check_columns (position_columns position)
  same_key ← gets (lookup_position position.account_id position.symbol)
  check (not (is_some same_key))
  check (position_checks position)
  modify (λ db. record db { positions = db.positions ++ position ∷ [] })

abbrev pub lookup_price : String → Db → Option MarketPrice
lookup_price symbol db = find (λ (m : MarketPrice). m.symbol) symbol db.market_prices
