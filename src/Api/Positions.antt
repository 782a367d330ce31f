-- ===== src/Api/Positions.antt =====
-- app/api/positions.py. The database's order of texts, by which positions are listed, is an argument.
use order_management_system.Prelude.{ℕ, List, ◌==◌}
use order_management_system.Prelude.Table.{filter_where}
use order_management_system.Domain.Errors.{ok, err}
use order_management_system.Models.{Db, Position}
use order_management_system.Services.AccountService.{get_account}
use order_management_system.Services.MarketDataService.{PnlSummary, get_account_summary}
use order_management_system.Api.{Response, respond}

-- What follows `_ensure_account_exists`.
unfoldable pub for_account : {A : Type 0} → ℕ → A → Db → Response A
for_account account_id a db = elim (get_account account_id db) [
  | err e ↦ respond 200 (err e)
  | ok account ↦ respond 200 (ok a)
]

unfoldable pub list_positions : (List Position → List Position) → ℕ → Db → Response (List Position)
list_positions by_symbol account_id db =
    for_account account_id
      (by_symbol (filter_where (λ (p : Position). p.account_id == account_id) db.positions)) db

unfoldable pub get_pnl_summary : ℕ → Db → Response PnlSummary
get_pnl_summary account_id db = for_account account_id (get_account_summary account_id db) db
