-- ===== src/References/Placement.antt =====
-- The keys and the references under new accounts, new orders and ticks.
use order_management_system.Prelude.{
  ℕ, String, ◌≡◌, refl, sym, subst, arith, Bool, true, false, none, some, List, [], ◌∷◌, ◌++◌, map,
  leb, inl, inr, Option-cases, Bool-cases, string_eq, nat_eq, not,
}
use order_management_system.Prelude.Table.{replace}
use order_management_system.Prelude.Distinct.{Distinct}
use order_management_system.Domain.Enums.{new, order_created}
use order_management_system.Domain.Errors.{duplicate_account, duplicate_order}
use order_management_system.Domain.OrderRules.{
  required_buying_power, ensure_sufficient_buying_power,
}
use order_management_system.Models.{
  Db, Account, OrderCreate, Position, MarketPrice, available_cash, text, decimal,
}
use order_management_system.Persistence.Session.{Tx, begin, pure, modify}
use order_management_system.Persistence.Keeps.{
  Keeps, pure-Keeps, raise-Keeps, gets-Keeps, if-Keeps, option-Keeps, result-Keeps, begin-Keeps,
  modify-Keeps, >>=-Keeps,
}
use order_management_system.Persistence.Orders
use order_management_system.Persistence.Accounts
use order_management_system.Persistence.Positions.{position_key, position_key_eq, lookup_price}
use order_management_system.Services.AccountService.{
  AccountCreate, new_account, account_block, create_account,
}
use order_management_system.Services.AccountService.Cash.{conflict_keeps}
use order_management_system.Services.OrderService.{
  Surroundings, initial_order, place_order, creation_block, order_matches_request,
}
use order_management_system.Services.MarketDataService.{
  apply_tick, tick_block, upsert, marked, new_price, price_symbol,
}
use order_management_system.References.{IsReferenced, IsReferenced-IsClosed, replace_keys}
use order_management_system.References.Rows.{Distinct-add, add_account-Keeps, add_order-Keeps}
use order_management_system.References.Blocks.{
  require_account-Keeps, append_event-Keeps, route_order-Keeps, reject_order-Keeps,
}

abbrev Safe : {A : Type 0} → Tx A → Type 0
Safe m = Keeps IsReferenced m

-- app/services/account_service.py
account_block-Keeps : (id : ℕ) (payload : AccountCreate) → Safe (account_block id payload)
unfolding account_block
account_block-Keeps id payload =
    >>=-Keeps IsReferenced (gets-Keeps IsReferenced (Accounts.by_user_id payload.user_id))
      λ existing.
        option-Keeps IsReferenced existing
          (>>=-Keeps IsReferenced (add_account-Keeps (new_account id payload))
            λ _. pure-Keeps IsReferenced (new_account id payload))
          (λ _. raise-Keeps IsReferenced (duplicate_account payload.user_id))

pub create_account-IsReferenced :
    (id : ℕ) (payload : AccountCreate) (db : Db)
    → IsReferenced db
    → IsReferenced (create_account id payload db).1
create_account-IsReferenced id payload db v =
    subst IsReferenced (sym (conflict_keeps id payload db))
      (begin-Keeps IsReferenced (account_block id payload) (account_block-Keeps id payload) db v)

-- app/services/order_service.py
place_order-Keeps :
    (env : Surroundings) (payload : OrderCreate) (a : Account) → Safe (place_order env payload a)
unfolding place_order
place_order-Keeps env payload a =
    let o = initial_order env payload in
    let cash = required_buying_power payload.side payload.quantity payload.price in
    >>=-Keeps IsReferenced (add_order-Keeps o) λ _.
      >>=-Keeps IsReferenced
        (append_event-Keeps IsReferenced IsReferenced-IsClosed o order_created none (some new) (
          ("client_order_id", text o.client_order_id)
          ∷ ("symbol", text o.symbol)
          ∷ ("quantity", decimal o.quantity)
          ∷ []))
        λ _.
          result-Keeps IsReferenced (ensure_sufficient_buying_power (available_cash a) cash)
            (λ _.
              >>=-Keeps IsReferenced (route_order-Keeps IsReferenced IsReferenced-IsClosed o cash a)
                λ placed. pure-Keeps IsReferenced (placed, true))
            (λ _.
              >>=-Keeps IsReferenced (reject_order-Keeps IsReferenced IsReferenced-IsClosed o)
                λ rejected. pure-Keeps IsReferenced (rejected, false))

creation_block-Keeps :
    (env : Surroundings) (payload : OrderCreate) → Safe (creation_block env payload)
unfolding creation_block
creation_block-Keeps env payload =
    let duplicate = duplicate_order payload.client_order_id in
    >>=-Keeps IsReferenced
      (require_account-Keeps IsReferenced IsReferenced-IsClosed payload.account_id)
      λ a.
        >>=-Keeps IsReferenced
          (gets-Keeps IsReferenced
            (Orders.by_idempotency_key payload.account_id payload.idempotency_key))
          λ by_key.
            option-Keeps IsReferenced by_key
              (>>=-Keeps IsReferenced
                (gets-Keeps IsReferenced
                  (Orders.by_client_order_id payload.account_id payload.client_order_id))
                λ by_client.
                  option-Keeps IsReferenced by_client (place_order-Keeps env payload a)
                    λ _. raise-Keeps IsReferenced duplicate)
              λ existing.
                if-Keeps IsReferenced (not (order_matches_request existing payload))
                  (raise-Keeps IsReferenced duplicate) (pure-Keeps IsReferenced (existing, false))

pub creation-IsReferenced :
    (env : Surroundings) (payload : OrderCreate) (db : Db)
    → IsReferenced db
    → IsReferenced (begin (creation_block env payload) db).1
creation-IsReferenced env payload =
    begin-Keeps IsReferenced (creation_block env payload) (creation_block-Keeps env payload)

-- app/services/market_data_service.py
marked_keys :
    (symbol : String) (price : ℕ) (ps : List Position)
    → map position_key (map (marked symbol price) ps) ≡ map position_key ps
unfolding marked
marked_keys symbol price [] = refl
marked_keys symbol price (p ∷ ps) = ground (arith, marked_keys symbol price ps)

marked_accounts :
    (symbol : String) (price : ℕ) (ps : List Position)
    → map (λ (p : Position). p.account_id) (map (marked symbol price) ps)
      ≡ map (λ (p : Position). p.account_id) ps
unfolding marked
marked_accounts symbol price [] = refl
marked_accounts symbol price (p ∷ ps) = ground (arith, marked_accounts symbol price ps)

-- The prices change by one row.
repriced :
    (ms : List MarketPrice) (db : Db)
    → Distinct (map price_symbol ms)
    → IsReferenced db
    → IsReferenced (record db { market_prices = ms })
repriced ms db unique v = record {
  fills = v.fills;
  seen = v.seen;
  positions = v.positions;
  prices = unique;
}

remarked :
    (symbol : String) (price : ℕ) (db : Db)
    → IsReferenced db
    → IsReferenced (record db { positions = map (marked symbol price) db.positions })
remarked symbol price db v = record {
  fills = v.fills;
  seen = v.seen;
  positions = record {
    by_key = rw (marked_keys symbol price db.positions) v.positions.by_key;
    account_is_there = rw (marked_accounts symbol price db.positions) v.positions.account_is_there;
  };
  prices = v.prices;
}

upsert-Keeps : (symbol : String) (price observed_at : ℕ) → Safe (upsert symbol price observed_at)
unfolding upsert
upsert-Keeps symbol price observed_at db a db' h v =
    let row = new_price symbol price observed_at in
    elim (Option-cases (lookup_price symbol db)) [
      | inl fresh ↦ subst IsReferenced (ground arith) (
          repriced (db.market_prices ++ row ∷ []) db
            (Distinct-add price_symbol row db.market_prices v.prices fresh) v)
      | inr (stored, found) ↦ elim (Bool-cases (leb stored.observed_at observed_at)) [
        | inl current ↦ subst IsReferenced (ground arith) (
            repriced (replace price_symbol row db.market_prices) db
              (rw (replace_keys price_symbol row db.market_prices) v.prices) v)
        | inr old ↦ subst IsReferenced (ground arith) v
      ]
    ]

mark-Keeps :
    (symbol : String) (price : ℕ) (was_applied : Bool)
    → Safe (elim was_applied [
      | false ↦ pure tt
      | true ↦ modify (λ db. record db { positions = map (marked symbol price) db.positions })
    ])
mark-Keeps symbol price false = pure-Keeps IsReferenced tt
mark-Keeps symbol price true = modify-Keeps IsReferenced _ (remarked symbol price)

pub apply_tick-IsReferenced :
    (upper : String → String) (symbol : String) (price observed_at : ℕ) (db : Db)
    → IsReferenced db
    → IsReferenced (apply_tick upper symbol price observed_at db).1
unfolding apply_tick tick_block
apply_tick-IsReferenced upper symbol price observed_at =
    begin-Keeps IsReferenced (tick_block (upper symbol) price observed_at) (
      >>=-Keeps IsReferenced (upsert-Keeps (upper symbol) price observed_at)
        λ was_applied. mark-Keeps (upper symbol) price was_applied)
