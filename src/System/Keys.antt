-- ===== src/System/Keys.antt =====
-- The unique keys and the foreign keys of app/models, in every reachable database.
use order_management_system.Prelude.{
  ℕ, ◌≡◌, refl, string_eq, arith, false, List, [], ◌∷◌, map, inl, inr, Option-cases, nat_eq,
}
use order_management_system.Prelude.Table.{find}
use order_management_system.Prelude.Distinct.{Distinct, is_in, find-is_in}
use order_management_system.Models.{Db, OrderEvent}
use order_management_system.Persistence.Positions.{position_key_eq}
use order_management_system.Accounting.{order_id}
use order_management_system.Journal.{IsJournal, history}
use order_management_system.Keys.{
  account_ids, user_ids, order_ids, owner_ids, client_keys, idempotency_keys,
}
use order_management_system.References.{
  Within, fill_events, fill_orders, executions, seen_events, seen_orders, position_keys,
  position_accounts, price_symbols,
}
use order_management_system.System.{Reach, empty, Reach-IsConsistent, empty-IsConsistent}

-- The primary keys and the unique constraints.
abbrev pub HasUniqueKeys : Db → Type 0
HasUniqueKeys db =
    Distinct (account_ids db.accounts)
    × Distinct (user_ids db.accounts)
    × Distinct (order_ids db.orders)
    × Distinct (client_keys db.orders)
    × Distinct (idempotency_keys db.orders)
    × Distinct (fill_events db.fills)
    × Distinct (executions db.fills)
    × Distinct (seen_events db.processed_events)
    × Distinct (position_keys db.positions)
    × Distinct (price_symbols db.market_prices)

-- Whatever happens, no two accounts share an id or a user, no two orders an id, an account and client
-- order id, or an account and idempotency key, no two fills a broker event or an execution, no two
-- processed events a broker event, no two positions an account and symbol, and no two prices a symbol.
pub reachable_keys : {db : Db} → Reach empty db → HasUniqueKeys db
reachable_keys r =
    let c = Reach-IsConsistent empty-IsConsistent r in
    let keyed = c.backed.keyed in
    (
      keyed.accounts_by_id, keyed.accounts_by_user, keyed.orders_by_id, keyed.orders_by_client,
      keyed.orders_by_idempotency, c.referenced.fills.by_event, c.referenced.fills.by_execution,
      c.referenced.seen.by_event, c.referenced.positions.by_key, c.referenced.prices,
    )

abbrev pub event_orders : List OrderEvent → List ℕ
event_orders = map (λ (e : OrderEvent). e.order_id)

no_history : (k : ℕ) (es : List OrderEvent) → history k es ≡ [] → is_in k (event_orders es) ≡ false
no_history k [] h = refl
no_history k (e ∷ es) h = ground (arith, no_history k es)

-- An entry of the audit trail is of an order that is there.
trail-Within :
    (db : Db) → IsJournal db → Within (event_orders db.order_events) (order_ids db.orders)
trail-Within db v k there = elim (Option-cases (find order_id k db.orders)) [
  | inl missing ↦ absurd (ground (arith, no_history k db.order_events (v.unknown k missing).0))
  | inr (o, ho) ↦ find-is_in order_id k db.orders o ho
]

-- The foreign keys.
abbrev pub HasReferences : Db → Type 0
HasReferences db =
    Within (owner_ids db.orders) (account_ids db.accounts)
    × Within (position_accounts db.positions) (account_ids db.accounts)
    × Within (fill_orders db.fills) (order_ids db.orders)
    × Within (event_orders db.order_events) (order_ids db.orders)
    × Within (seen_orders db.processed_events) (order_ids db.orders)

-- Whatever happens, every order and every position refers to an account that is there, and every fill,
-- every entry of the audit trail and every processed event to an order that is there.
pub reachable_references : {db : Db} → Reach empty db → HasReferences db
reachable_references {db} r =
    let c = Reach-IsConsistent empty-IsConsistent r in
    (
      c.backed.keyed.owned,
      c.referenced.positions.account_is_there,
      c.referenced.fills.order_is_there,
      trail-Within db c.journal,
      c.referenced.seen.order_is_there,
    )
