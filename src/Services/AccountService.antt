-- ===== src/Services/AccountService.antt =====
-- app/services/account_service.py
pub mod Cash
use order_management_system.Prelude.{ℕ, String, Option, none, some}
use order_management_system.Domain.Errors.{
  Error, Result, ok, err, duplicate_account, account_not_found, integrity_error,
}
use order_management_system.Models.{Db, Account}
use order_management_system.Persistence.Session.{Tx, pure, raise, gets, begin, ◌>>=◌, ◌>>◌}
use order_management_system.Persistence.Accounts

-- A valid request for an account (app/schemas/account.py).
pub record AccountCreate : Type 0 where
  pub user_id : String
  pub initial_cash_balance : ℕ
  pub currency : String

abbrev pub new_account : ℕ → AccountCreate → Account
new_account id payload = record {
  id = id;
  user_id = payload.user_id;
  currency = payload.currency;
  cash_balance = payload.initial_cash_balance;
  reserved_cash = 0;
  version = 1;
}

-- The block of `create_account`; the new UUID is an argument.
unfoldable pub account_block : ℕ → AccountCreate → Tx Account
account_block id payload = do
  existing ← gets (Accounts.by_user_id payload.user_id)
  elim existing [
    | some _ ↦ raise (duplicate_account payload.user_id)
    | none ↦ do Accounts.add (new_account id payload); pure (new_account id payload)
  ]

-- `except IntegrityError`
abbrev duplicate_on_conflict : String → Result Account × Db → Result Account × Db
duplicate_on_conflict user_id (err integrity_error, db) = (err (duplicate_account user_id), db)
duplicate_on_conflict user_id (r, db) = (r, db)

unfoldable pub create_account : ℕ → AccountCreate → Db → Result Account × Db
create_account id payload db =
    duplicate_on_conflict payload.user_id (begin (account_block id payload) db)

unfoldable pub get_account : ℕ → Db → Result Account
get_account account_id db = elim (Accounts.lookup_account account_id db) [
  | none ↦ err (account_not_found account_id)
  | some account ↦ ok account
]
