-- ===== src/System/Trail.antt =====
-- The audit trail and the fills of a reachable database.
use order_management_system.Prelude.{ℕ, ◌≡◌, some, nat_eq}
use order_management_system.Prelude.Table.{find}
use order_management_system.Models.{Db, Order}
use order_management_system.Accounting.{order_id}
use order_management_system.Journal.{filled_by}
use order_management_system.System.{Reach, empty, Reach-IsConsistent, empty-IsConsistent}

-- Whatever happens, the fills of every stored order add up to its filled quantity.
pub reachable_fills :
    {db : Db}
    → Reach empty db
    → (id : ℕ) (o : Order) → find order_id id db.orders ≡ some o
    → filled_by id db.fills ≡ o.filled_quantity
reachable_fills r id o h = (Reach-IsConsistent empty-IsConsistent r).journal.ledger id o h
