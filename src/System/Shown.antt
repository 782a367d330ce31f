-- ===== src/System/Shown.antt =====
-- What clients read of the orders in any reachable database.
use order_management_system.Prelude.{nat_eq}
