-- ===== src/References/Rows.antt =====
-- The keys and the references under one row that is added or written anew.
use mathlib.Core.List.{map-append}
use order_management_system.Prelude.{
  ℕ, ◌≡◌, sym, ap, subst, arith, none, List, [], ◌∷◌, ◌++◌, map, ◌==◌, ◌||◌, nat_eq, string_eq, inl,
  inr, Bool-cases, Eq,
}
use order_management_system.Prelude.Table.{find}
use order_management_system.Prelude.Distinct.{
  is_in, Distinct, is_in-append, Distinct-append, is_in-find,
}
use order_management_system.Domain.Errors.{ok}
use order_management_system.Models.{
  Db, Account, Order, Fill, Position, ProcessedBrokerEvent, position_checks, position_columns,
}
use order_management_system.Persistence.Keeps.{
  Keeps, check-Keeps, check_columns-Keeps, modify-Keeps, >>=-Keeps,
}
use order_management_system.Persistence.Orders
use order_management_system.Persistence.Accounts
use order_management_system.Persistence.Events
use order_management_system.Persistence.Positions
use order_management_system.Persistence.Positions.{PositionKey, position_key, position_key_eq}
use order_management_system.References.{IsReferenced, Tied, replace_keys, replace_column}

-- A column of keys with a row under a new key.
pub Distinct-add {ℓ κ} :
    {A : Type ℓ} {K : Type κ} (key : A → K) ⦃e : Eq K⦄ (x : A) (xs : List A)
    → Distinct (map key xs)
    → find key (key x) xs ≡ none
    → Distinct (map key (xs ++ x ∷ []))
Distinct-add key x xs unique fresh =
    rw (map-append key xs (x ∷ []))
      (Distinct-append (map key xs) (key x) unique (is_in-find key (key x) xs fresh))

-- The keys that a column gains with one row.
pub is_in-add {ℓ} :
    {A : Type ℓ} (key : A → ℕ) (x : A) (xs : List A) (k : ℕ)
    → is_in k (map key (xs ++ x ∷ [])) ≡ (is_in k (map key xs) || key x == k)
is_in-add key x xs k =
    ground (arith, map-append key xs (x ∷ []), is_in-append k (map key xs) (key x))

-- A row that is added stood under no key of its own before.
add_fill-inv :
    (f : Fill) (u : Unit {0}) (db db' : Db)
    → Orders.add_fill f db ≡ ok (u, db')
    → (find (λ (x : Fill). x.broker_event_id) f.broker_event_id db.fills ≡ none)
      × (find (λ (x : Fill). x.execution_id) f.execution_id db.fills ≡ none)
      × (db' ≡ record db { fills = db.fills ++ f ∷ [] })
add_fill-inv f u db db' h = ground arith

add_seen-inv :
    (e : ProcessedBrokerEvent) (u : Unit {0}) (db db' : Db)
    → Events.add e db ≡ ok (u, db')
    → (Events.lookup_event e.broker_event_id db ≡ none)
      × (db' ≡ record db { processed_events = db.processed_events ++ e ∷ [] })
add_seen-inv e u db db' h = ground arith

add_position-inv :
    (p : Position) (u : Unit {0}) (db db' : Db)
    → Positions.add p db ≡ ok (u, db')
    → (find position_key (position_key p) db.positions ≡ none)
      × (db' ≡ record db { positions = db.positions ++ p ∷ [] })
add_position-inv p u db db' h = ground arith

add_account-inv :
    (a : Account) (u : Unit {0}) (db db' : Db)
    → Accounts.add a db ≡ ok (u, db')
    → db' ≡ record db { accounts = db.accounts ++ a ∷ [] }
add_account-inv a u db db' h = ground arith

add_order-inv :
    (o : Order) (u : Unit {0}) (db db' : Db)
    → Orders.add o db ≡ ok (u, db')
    → db' ≡ record db { orders = db.orders ++ o ∷ [] }
add_order-inv o u db db' h = ground arith

module _ (k j : ℕ) where
  pub add_fill-Keeps : (f : Fill) → f.order_id ≡ j → Keeps (Tied k j) (Orders.add_fill f)
  add_fill-Keeps f own db u db' h (v, owner, row) =
      let (new_event, new_execution, same) = add_fill-inv f u db db' h in
      subst (Tied k j) (sym same) (
        record {
          fills = record {
            by_event =
                Distinct-add (λ (x : Fill). x.broker_event_id) f db.fills v.fills.by_event
                  new_event;
            by_execution =
                Distinct-add (λ (x : Fill). x.execution_id) f db.fills v.fills.by_execution
                  new_execution;
            order_is_there = λ id there. elim (Bool-cases (f.order_id == id)) [
              | inl this ↦ ground arith
              | inr other ↦
                  v.fills.order_is_there id
                    (ground (arith, is_in-add (λ (x : Fill). x.order_id) f db.fills id))
            ];
          };
          seen = v.seen;
          positions = v.positions;
          prices = v.prices;
        },
        owner,
        row,
      )

  pub add_seen-Keeps : (e : ProcessedBrokerEvent) → e.order_id ≡ j → Keeps (Tied k j) (Events.add e)
  add_seen-Keeps e own db u db' h (v, owner, row) =
      let (new_event, same) = add_seen-inv e u db db' h in
      let order_of = λ (x : ProcessedBrokerEvent). x.order_id in
      subst (Tied k j) (sym same) (
        record {
          fills = v.fills;
          seen = record {
            by_event =
                Distinct-add (λ (x : ProcessedBrokerEvent). x.broker_event_id) e db.processed_events
                  v.seen.by_event new_event;
            order_is_there = λ id there. elim (Bool-cases (e.order_id == id)) [
              | inl this ↦ ground arith
              | inr other ↦
                  v.seen.order_is_there id
                    (ground (arith, is_in-add order_of e db.processed_events id))
            ];
          };
          positions = v.positions;
          prices = v.prices;
        },
        owner,
        row,
      )

  pub add_position-Keeps : (p : Position) → p.account_id ≡ k → Keeps (Tied k j) (Positions.add p)
  add_position-Keeps p own db u db' h (v, owner, row) =
      let (new_key, same) = add_position-inv p u db db' h in
      let account_of = λ (x : Position). x.account_id in
      subst (Tied k j) (sym same) (
        record {
          fills = v.fills;
          seen = v.seen;
          positions = record {
            by_key = Distinct-add position_key p db.positions v.positions.by_key new_key;
            account_is_there = λ id there. elim (Bool-cases (p.account_id == id)) [
              | inl this ↦ ground arith
              | inr other ↦
                  v.positions.account_is_there id
                    (ground (arith, is_in-add account_of p db.positions id))
            ];
          };
          prices = v.prices;
        },
        owner,
        row,
      )

  pub save_position-Keeps : (p : Position) → Keeps (Tied k j) (Positions.save p)
  save_position-Keeps p =
      >>=-Keeps (Tied k j) (check_columns-Keeps (Tied k j) (position_columns p)) λ _.
        >>=-Keeps (Tied k j) (check-Keeps (Tied k j) (position_checks p)) λ _.
          modify-Keeps (Tied k j) _ λ db (v, owner, row). (
            record {
              fills = v.fills;
              seen = v.seen;
              positions = record {
                by_key = rw (replace_keys position_key p db.positions) v.positions.by_key;
                account_is_there =
                    rw
                      (replace_column position_key (λ (x : Position). x.account_id) p db.positions
                        λ old same. ap (λ (t : PositionKey). t.0) same)
                      v.positions.account_is_there;
              };
              prices = v.prices;
            },
            owner,
            row,
          )

-- A new account and a new order.
pub add_account-Keeps : (a : Account) → Keeps IsReferenced (Accounts.add a)
add_account-Keeps a db u db' h v = subst IsReferenced (sym (add_account-inv a u db db' h)) (record {
  fills = v.fills;
  seen = v.seen;
  positions = record {
    by_key = v.positions.by_key;
    account_is_there = λ id there. ground (
      arith,
      v.positions.account_is_there id there,
      is_in-add (λ (x : Account). x.id) a db.accounts id,
    );
  };
  prices = v.prices;
})

pub add_order-Keeps : (o : Order) → Keeps IsReferenced (Orders.add o)
add_order-Keeps o db u db' h v = subst IsReferenced (sym (add_order-inv o u db db' h)) (record {
  fills = record {
    by_event = v.fills.by_event;
    by_execution = v.fills.by_execution;
    order_is_there = λ id there.
        ground
          (arith, v.fills.order_is_there id there, is_in-add (λ (x : Order). x.id) o db.orders id);
  };
  seen = record {
    by_event = v.seen.by_event;
    order_is_there = λ id there.
        ground
          (arith, v.seen.order_is_there id there, is_in-add (λ (x : Order). x.id) o db.orders id);
  };
  positions = v.positions;
  prices = v.prices;
})
