-- ===== src/Persistence/Queries.antt =====
-- The listing queries of app/repositories. The table of orders stands in the order of `created_at`,
-- and so do the events and the fills of one order in theirs.
pub mod Lists
use order_management_system.Prelude.{
  ℕ, zero, suc, String, Bool, true, false, Option, none, some, List, [], ◌∷◌, ◌++◌, map, leb, ◌==◌,
  str_eq, ◌&&◌, if◌then◌else◌,
}
use order_management_system.Prelude.Table.{filter_where}
use order_management_system.Domain.Enums.{OrderStatus, status_eq, status_in, tif_index, day}
use order_management_system.Domain.StateMachine.{open_order_statuses}
use order_management_system.Models.{Db, Order, OrderEvent, Fill, Position}

-- LIMIT and OFFSET
abbrev pub take {ℓ} : {A : Type ℓ} → ℕ → List A → List A
take zero xs = []
take (suc n) [] = []
take (suc n) (x ∷ xs) = x ∷ take n xs

abbrev pub drop {ℓ} : {A : Type ℓ} → ℕ → List A → List A
drop zero xs = xs
drop (suc n) [] = []
drop (suc n) (x ∷ xs) = drop n xs

-- ORDER BY … DESC on a list in ascending order.
abbrev pub newest_first {ℓ} : {A : Type ℓ} → List A → List A
newest_first [] = []
newest_first (x ∷ xs) = newest_first xs ++ x ∷ []

-- ORDER BY a number.
abbrev pub insert_by {ℓ} : {A : Type ℓ} → (A → ℕ) → A → List A → List A
insert_by key x [] = x ∷ []
insert_by key x (y ∷ ys) =
    let rest = insert_by key x ys in if leb (key x) (key y) then x ∷ y ∷ ys else y ∷ rest

abbrev pub sort_by {ℓ} : {A : Type ℓ} → (A → ℕ) → List A → List A
sort_by key [] = []
sort_by key (x ∷ xs) = insert_by key x (sort_by key xs)

abbrev matches_account : Option ℕ → Order → Bool
matches_account none order = true
matches_account (some account_id) order = order.account_id == account_id

abbrev matches_status : Option OrderStatus → Order → Bool
matches_status none order = true
matches_status (some status) order = status_eq order.status status

abbrev pub selected : Option ℕ → Option OrderStatus → Bool → Order → Bool
selected account_id status open_only order =
    matches_account account_id order
    && matches_status status order
    && (if open_only then status_in order.status open_order_statuses else true)

unfoldable pub list_orders : Option ℕ → Option OrderStatus → Bool → ℕ → ℕ → Db → List Order
list_orders account_id status open_only limit offset db =
    take limit
      (drop offset (newest_first (filter_where (selected account_id status open_only) db.orders)))

-- Whether a DAY order has expired and is open.
abbrev pub is_expired : ℕ → Order → Bool
is_expired now order =
    tif_index order.time_in_force == tif_index day
    && status_in order.status open_order_statuses
    && elim order.expires_at [ none ↦ false | some expires_at ↦ leb expires_at now ]

abbrev pub expiry : Order → ℕ
expiry order = elim order.expires_at [ none ↦ 0 | some expires_at ↦ expires_at ]

unfoldable pub list_expired_day_order_ids : ℕ → ℕ → Db → List ℕ
list_expired_day_order_ids now limit db =
    map (λ (o : Order). o.id)
      (take limit (sort_by expiry (filter_where (is_expired now) db.orders)))

-- ORDER BY executed_at
unfoldable pub list_fills : ℕ → Db → List Fill
list_fills order_id db =
    sort_by (λ (f : Fill). f.executed_at)
      (filter_where (λ (f : Fill). f.order_id == order_id) db.fills)

unfoldable pub list_events : ℕ → Db → List OrderEvent
list_events order_id db = filter_where (λ (e : OrderEvent). e.order_id == order_id) db.order_events
