-- ===== src/Soundness.antt =====
-- What holds of every order that is stored between two blocks.
pub mod Evolution
use order_management_system.Prelude.{
  ℕ, ◌+◌, ◌<◌, ◌≡◌, ◌≢◌, ◌≤◌, true, Option, none, some, List, [], ◌∷◌, ◌++◌, arith, nat_eq, sym,
  subst, ◌∙◌,
}
use order_management_system.Prelude.Table.{find, replace, replace-replace, Every, Every-replace}
use order_management_system.Domain.Enums.{
  OrderStatus, new, validated, routed, partially_filled, filled, cancel_pending, tif_index, ioc,
  status_in,
}
use order_management_system.Domain.StateMachine.{open_order_statuses}
use order_management_system.Domain.StateMachine.Progress.{rank}
use order_management_system.Models.{Db, Order, order_columns}
use order_management_system.Accounting.{order_id}

-- How the three quantities of an order stand in each status. No order rests in the first two.
abbrev pub StatusFits : OrderStatus → ℕ → ℕ → ℕ → Type 0
StatusFits new f c r = ⊥
StatusFits validated f c r = ⊥
StatusFits routed f c r = (f ≡ 0) × (c ≡ 0) × (0 < r)
StatusFits partially_filled f c r = (0 < f) × (c ≡ 0) × (0 < r)
StatusFits filled f c r = (0 < f) × (c ≡ 0) × (r ≡ 0)
StatusFits OrderStatus.rejected f c r = (f ≡ 0) × (c ≡ 0) × (0 < r)
StatusFits cancel_pending f c r = (0 ≤ f) × (c ≡ 0) × (0 < r)
StatusFits OrderStatus.cancelled f c r = (0 ≤ f) × (0 < c) × (r ≡ 0)

pub record IsSound (o : Order) : Type 0 where
  pub priced : 0 < o.price
  pub conserved : o.filled_quantity + o.cancelled_quantity + o.remaining_quantity ≡ o.quantity
  pub fits : StatusFits o.status o.filled_quantity o.cancelled_quantity o.remaining_quantity
  pub never_rests : tif_index o.time_in_force ≡ tif_index ioc → o.status ≢ partially_filled
  pub in_columns : order_columns o ≡ true

abbrev pub AllSound : List Order → Type 0
AllSound = Every order_id IsSound

-- The terms of an order, which no block changes.
pub record SameTerms (o r : Order) : Type 0 where
  pub id : r.id ≡ o.id
  pub client_order_id : r.client_order_id ≡ o.client_order_id
  pub idempotency_key : r.idempotency_key ≡ o.idempotency_key
  pub account_id : r.account_id ≡ o.account_id
  pub symbol : r.symbol ≡ o.symbol
  pub side : r.side ≡ o.side
  pub order_type : r.order_type ≡ o.order_type
  pub time_in_force : r.time_in_force ≡ o.time_in_force
  pub quantity : r.quantity ≡ o.quantity
  pub price : r.price ≡ o.price
  pub expires_at : r.expires_at ≡ o.expires_at

-- How a row may change: it moves forward in its life, and its fills are never taken back.
pub record Progress (o r : Order) : Type 0 where
  pub forward : rank o.status ≤ rank r.status
  pub newer : o.version ≤ r.version
  pub filling : o.filled_quantity ≤ r.filled_quantity
  pub draining : r.remaining_quantity ≤ o.remaining_quantity

pub Progress-trans : {a b c : Order} → Progress a b → Progress b c → Progress a c
Progress-trans p q = omega arith

-- The row of one order has been written anew, under the same terms.
pub record Rewrites (o r : Order) (db db' : Db) : Type 0 where
  pub terms : SameTerms o r
  pub progress : Progress o r
  pub orders : db'.orders ≡ replace order_id r db.orders

pub Rewrites-AllSound :
    (o r : Order) {db db' : Db}
    → Rewrites o r db db'
    → find order_id o.id db.orders ≡ some o
    → AllSound db.orders
    → IsSound r
    → AllSound db'.orders
Rewrites-AllSound o r {db} w ho all sound = rw w.orders (
    Every-replace order_id IsSound r db.orders o
      (subst (λ k. find order_id k db.orders ≡ some o) (sym w.terms.id) ho) all sound)

pub SameTerms-trans : {a b c : Order} → SameTerms a b → SameTerms b c → SameTerms a c
SameTerms-trans s t = ground arith

-- Two writes of one order are as the second.
pub Rewrites-trans :
    (a b c : Order) {db mid db' : Db}
    → Rewrites a b db mid
    → Rewrites b c mid db'
    → Rewrites a c db db'
Rewrites-trans a b c {db} v w = record {
  terms = SameTerms-trans v.terms w.terms;
  progress = Progress-trans v.progress w.progress;
  orders = rw (w.orders, v.orders) (replace-replace order_id b c db.orders (sym w.terms.id));
}

-- A block either leaves the orders alone, or writes its order anew; what it writes is sound.
pub data Effect (o : Order) (db db' : Db) : Type 0 where
  untouched : db'.orders ≡ db.orders → Effect o db db'
  rewritten :
      (r : Order)
      → Rewrites o r db db'
      → (IsSound o → IsSound r)
      → status_in o.status open_order_statuses ≡ true
      → Effect o db db'

pub Effect-AllSound :
    (o : Order) {db db' : Db}
    → Effect o db db'
    → find order_id o.id db.orders ≡ some o
    → AllSound db.orders
    → AllSound db'.orders
Effect-AllSound o (untouched same) ho all = rw same all
Effect-AllSound o (rewritten r w keeps live) ho all =
    Rewrites-AllSound o r w ho all (keeps (all o.id o ho))

pub Effect-after :
    (o : Order) {db mid db' : Db} → Effect o db mid → db'.orders ≡ mid.orders → Effect o db db'
Effect-after o (untouched same) e = untouched (e ∙ same)
Effect-after o (rewritten r w keeps live) e =
    rewritten r (record { terms = w.terms; progress = w.progress; orders = e ∙ w.orders }) keeps
      live

-- What a block does to the orders: nothing, or the effect on one of them.
pub data Touches (db db' : Db) : Type 0 where
  no_order : db'.orders ≡ db.orders → Touches db db'
  one_order : (o : Order) → find order_id o.id db.orders ≡ some o → Effect o db db' → Touches db db'

pub Touches-AllSound : {db db' : Db} → Touches db db' → AllSound db.orders → AllSound db'.orders
Touches-AllSound (no_order same) all = rw same all
Touches-AllSound (one_order o ho e) all = Effect-AllSound o e ho all
