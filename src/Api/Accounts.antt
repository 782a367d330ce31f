-- ===== src/Api/Accounts.antt =====
-- app/api/accounts.py
use order_management_system.Prelude.{ℕ, String, none, some}
use order_management_system.Models.{Db, Account}
use order_management_system.Schemas.{AccountInput, validate_account}
use order_management_system.Services.AccountService
use order_management_system.Api.{Response, unprocessable, respond}

unfoldable pub create_account : ℕ → (String → String) → AccountInput → Db → Response Account × Db
create_account id upper input db = elim (validate_account upper input) [
  | none ↦ (unprocessable, db)
  | some payload ↦
      let (r, db') = AccountService.create_account id payload db in (respond 201 r, db')
]

unfoldable pub get_account : ℕ → Db → Response Account
get_account account_id db = respond 200 (AccountService.get_account account_id db)
