-- ===== src/System/Exact.antt =====
-- The reserves of the accounts, as long as whole quantities are traded. A column of cash rounds to eight
-- places what is written to it, and a quantity times a price has up to sixteen; of a whole quantity it has
-- no more than eight, so that nothing is rounded. The model leaves the rounding out.
use order_management_system.Prelude.{List, [], ◌∷◌, nat_eq}
use order_management_system.Models.{Db, Account, Order, Fill}
use order_management_system.Accounting.{IsWhole}
use order_management_system.System.{Step, Reach, here, next, empty}

abbrev pub All : {A : Type 0} → (A → Type 0) → List A → Type 0
All P [] = Unit {0}
All P (x ∷ xs) = P x × All P xs

-- What is open of every order, and every fill, is a whole number, and every balance has eight places.
pub record HasWholeLots (db : Db) : Type 0 where
  pub open_orders : All (λ (o : Order). IsWhole o.remaining_quantity) db.orders
  pub fills : All (λ (f : Fill). IsWhole f.quantity) db.fills
  pub balances : All (λ (a : Account). IsWhole a.cash_balance) db.accounts

-- A run from the empty database in which whole lots are traded throughout.
pub data WholeReach : Db → Type 0 where
  begins : WholeReach empty
  goes : {db db' : Db} → WholeReach db → Step db db' → HasWholeLots db' → WholeReach db'

pub WholeReach-Reach : {db : Db} → WholeReach db → Reach empty db
WholeReach-Reach begins = here
WholeReach-Reach (goes r s w) = next (WholeReach-Reach r) s
