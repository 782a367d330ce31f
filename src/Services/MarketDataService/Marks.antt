-- ===== src/Services/MarketDataService/Marks.antt =====
-- What a tick does to the prices and to the positions.
use order_management_system.Prelude.{
  ℕ, String, ◌≡◌, Bool, true, false, Option, none, some, arith, ltb, leb, string_eq, ◌&&◌, str_eq,
  if◌then◌else◌,
}
use order_management_system.Prelude.Int.{pos, ◌-ℤ◌, ◌*ℤ◌}
use order_management_system.Models.{Db, Position}
use order_management_system.Persistence.Positions.{lookup_price, position_key_eq}
use order_management_system.Services.MarketDataService.{upsert, tick_block, apply_tick}

abbrev pub map_option : (Position → Position) → Option Position → Option Position
map_option f none = none
map_option f (some p) = some (f p)

-- Whether a tick is taken: its price is positive and it is no older than the price that is stored.
abbrev pub is_current : String → ℕ → Db → Bool
is_current symbol observed_at db = elim (lookup_price symbol db) [
  | none ↦ true
  | some stored ↦ leb stored.observed_at observed_at
]

-- A position at a price: for its own symbol it is marked, at the gain of its quantity over its average
-- price.
abbrev pub at_price : String → ℕ → Position → Position
at_price symbol price p =
    if str_eq p.symbol symbol
    then record p {
      last_mark_price = some price;
      unrealized_pnl = (pos price -ℤ pos p.average_entry_price) *ℤ p.net_quantity;
    }
    else p

-- A tick without a positive price, or older than the stored price, changes nothing.
pub tick_refused :
    (upper : String → String) (symbol : String) (price observed_at : ℕ) (db : Db)
    → (ltb 0 price && is_current (upper symbol) observed_at db) ≡ false
    → (apply_tick upper symbol price observed_at db).1 ≡ db
unfolding apply_tick tick_block upsert
tick_refused upper symbol price observed_at db h = ground arith

pub apply_tick-frame :
    (upper : String → String) (symbol : String) (price observed_at : ℕ) (db : Db)
    → ((apply_tick upper symbol price observed_at db).1.accounts ≡ db.accounts)
      × ((apply_tick upper symbol price observed_at db).1.orders ≡ db.orders)
      × ((apply_tick upper symbol price observed_at db).1.order_events ≡ db.order_events)
      × ((apply_tick upper symbol price observed_at db).1.fills ≡ db.fills)
      × ((apply_tick upper symbol price observed_at db).1.processed_events ≡ db.processed_events)
unfolding apply_tick tick_block upsert
apply_tick-frame upper symbol price observed_at db = ground arith
