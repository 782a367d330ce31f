-- ===== src/References.antt =====
-- The keys of the other tables, and what their rows refer to.
pub mod Blocks
pub mod Execution
pub mod Placement
pub mod Rows
use mathlib.Core.List.{map-append}
use order_management_system.Prelude.{
  ℕ, Eq, ◌≡◌, refl, sym, ap, subst, ◌∙◌, String, Bool, true, false, none, some, List, [], ◌∷◌, ◌++◌,
  map, ◌==◌, ◌||◌, arith, inl, inr, Bool-cases, Option-cases, nat_eq, string_eq,
}
use order_management_system.Prelude.Table.{find, key-find, replace}
use order_management_system.Prelude.Distinct.{
  is_in, Distinct, is_in-append, Distinct-append, is_in-find, find-is_in, map-replace,
  replace-missing,
}
use order_management_system.Models.{
  Db, Account, Order, OrderEvent, Fill, Position, MarketPrice, ProcessedBrokerEvent,
}
use order_management_system.Persistence.Positions.{PositionKey, position_key, position_key_eq}
use order_management_system.Keys.{account_ids, order_ids}

abbrev pub fill_events : List Fill → List ℕ
fill_events = map (λ (f : Fill). f.broker_event_id)

abbrev pub executions : List Fill → List String
executions = map (λ (f : Fill). f.execution_id)

abbrev pub fill_orders : List Fill → List ℕ
fill_orders = map (λ (f : Fill). f.order_id)

abbrev pub seen_events : List ProcessedBrokerEvent → List ℕ
seen_events = map (λ (e : ProcessedBrokerEvent). e.broker_event_id)

abbrev pub seen_orders : List ProcessedBrokerEvent → List ℕ
seen_orders = map (λ (e : ProcessedBrokerEvent). e.order_id)

abbrev pub position_keys : List Position → List PositionKey
position_keys = map position_key

abbrev pub position_accounts : List Position → List ℕ
position_accounts = map (λ (p : Position). p.account_id)

abbrev pub price_symbols : List MarketPrice → List String
price_symbols = map (λ (m : MarketPrice). m.symbol)

-- Every key of the one column is in the other.
abbrev pub Within : List ℕ → List ℕ → Type 0
Within column keys = (k : ℕ) → is_in k column ≡ true → is_in k keys ≡ true

-- The unique keys of the fills, and the orders that they refer to.
pub record IsFillKeyed (fills : List Fill) (orders : List Order) : Type 0 where
  pub by_event : Distinct (fill_events fills)
  pub by_execution : Distinct (executions fills)
  pub order_is_there : Within (fill_orders fills) (order_ids orders)

-- The unique key of the processed events, and the orders that they refer to.
pub record IsSeenKeyed (seen : List ProcessedBrokerEvent) (orders : List Order) : Type 0 where
  pub by_event : Distinct (seen_events seen)
  pub order_is_there : Within (seen_orders seen) (order_ids orders)

-- The unique key of the positions, and the accounts that they refer to.
pub record IsPositionKeyed (positions : List Position) (accounts : List Account) : Type 0 where
  pub by_key : Distinct (position_keys positions)
  pub account_is_there : Within (position_accounts positions) (account_ids accounts)

pub record IsReferenced (db : Db) : Type 0 where
  pub fills : IsFillKeyed db.fills db.orders
  pub seen : IsSeenKeyed db.processed_events db.orders
  pub positions : IsPositionKeyed db.positions db.accounts
  pub prices : Distinct (price_symbols db.market_prices)

-- A write under a key leaves every column that the key decides alone, also where there is no such
-- row.
pub replace_column {ℓ κ μ} :
    {A : Type ℓ} {K : Type κ} {C : Type μ} (key : A → K) ⦃e : Eq K⦄ (column : A → C)
    → (new : A) (xs : List A) → ((old : A) → key new ≡ key old → column new ≡ column old)
    → map column (replace key new xs) ≡ map column xs
replace_column key column new xs decided = elim (Option-cases (find key (key new) xs)) [
  | inl missing ↦ ap (map column) (replace-missing key new xs missing)
  | inr (old, found) ↦
      map-replace key column new xs old found
        (decided old (sym (key-find key (key new) xs old found)))
]

pub replace_keys {ℓ κ} :
    {A : Type ℓ} {K : Type κ} (key : A → K) ⦃e : Eq K⦄ (new : A) (xs : List A)
    → map key (replace key new xs) ≡ map key xs
replace_keys key new xs = replace_column key key new xs λ old same. same

-- With an account and an order that are there.
abbrev pub Tied : ℕ → ℕ → Db → Type 0
Tied account order db =
    IsReferenced db
    × (is_in account (account_ids db.accounts) ≡ true)
    × (is_in order (order_ids db.orders) ≡ true)

-- What the writes to the accounts, the orders and the audit trail keep.
pub record IsClosed (P : Db → Type 0) : Type 0 where
  pub save_account :
      (a : Account) (db : Db)
      → P db
      → P (record db { accounts = replace (λ (x : Account). x.id) a db.accounts })
  pub save_order :
      (o : Order) (db : Db)
      → P db
      → P (record db { orders = replace (λ (x : Order). x.id) o db.orders })
  pub write_trail :
      (events : List OrderEvent) (db : Db) → P db → P (record db { order_events = events })

saved_account :
    (a : Account) (db : Db)
    → IsReferenced db
    → IsReferenced (record db { accounts = replace (λ (x : Account). x.id) a db.accounts })
saved_account a db v = record {
  fills = v.fills;
  seen = v.seen;
  positions = record {
    by_key = v.positions.by_key;
    account_is_there =
        rw (replace_keys (λ (x : Account). x.id) a db.accounts) v.positions.account_is_there;
  };
  prices = v.prices;
}

saved_order :
    (o : Order) (db : Db)
    → IsReferenced db
    → IsReferenced (record db { orders = replace (λ (x : Order). x.id) o db.orders })
saved_order o db v = record {
  fills = record {
    by_event = v.fills.by_event;
    by_execution = v.fills.by_execution;
    order_is_there = rw (replace_keys (λ (x : Order). x.id) o db.orders) v.fills.order_is_there;
  };
  seen = record {
    by_event = v.seen.by_event;
    order_is_there = rw (replace_keys (λ (x : Order). x.id) o db.orders) v.seen.order_is_there;
  };
  positions = v.positions;
  prices = v.prices;
}

written_trail :
    (events : List OrderEvent) (db : Db)
    → IsReferenced db
    → IsReferenced (record db { order_events = events })
written_trail events db v = record {
  fills = v.fills;
  seen = v.seen;
  positions = v.positions;
  prices = v.prices;
}

pub IsReferenced-IsClosed : IsClosed IsReferenced
IsReferenced-IsClosed = record {
  save_account = saved_account;
  save_order = saved_order;
  write_trail = written_trail;
}

pub Tied-IsClosed : (account order : ℕ) → IsClosed (Tied account order)
Tied-IsClosed account order = record {
  save_account = λ a db (v, owner, row).
      (saved_account a db v, rw (replace_keys (λ (x : Account). x.id) a db.accounts) owner, row);
  save_order = λ o db (v, owner, row).
      (saved_order o db v, owner, rw (replace_keys (λ (x : Order). x.id) o db.orders) row);
  write_trail = λ events db (v, owner, row). (written_trail events db v, owner, row);
}

pub nothing-IsReferenced : IsReferenced (record {
  accounts = [];
  orders = [];
  fills = [];
  order_events = [];
  positions = [];
  market_prices = [];
  processed_events = [];
})
unfolding Distinct
nothing-IsReferenced = record {
  fills = record { by_event = tt; by_execution = tt; order_is_there = λ k. cc };
  seen = record { by_event = tt; order_is_there = λ k. cc };
  positions = record { by_key = tt; account_is_there = λ k. cc };
  prices = tt;
}
