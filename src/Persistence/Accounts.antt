-- ===== src/Persistence/Accounts.antt =====
-- app/repositories/account_repository.py
use order_management_system.Prelude.{ℕ, String, Option, [], ◌∷◌, ◌++◌, str_eq, not, nat_eq}
use order_management_system.Prelude.Table.{find, find_where, replace, is_some}
use order_management_system.Domain.Errors.{account_not_found}
use order_management_system.Models.{Db, Account, account_checks, account_columns}
use order_management_system.Persistence.Session.{
  Tx, gets, modify, check, check_columns, or_raise, ◌>>=◌, ◌>>◌,
}

abbrev pub lookup_account : ℕ → Db → Option Account
lookup_account account_id db = find (λ (a : Account). a.id) account_id db.accounts

abbrev pub by_user_id : String → Db → Option Account
by_user_id user_id db = find_where (λ (a : Account). str_eq a.user_id user_id) db.accounts

-- `get_for_update`, and `AccountNotFound` where there is no row.
abbrev pub require_account : ℕ → Tx Account
require_account account_id = do
  found ← gets (lookup_account account_id)
  or_raise (account_not_found account_id) found

abbrev pub save : Account → Tx (Unit {0})
save account = do
  check_columns (account_columns account)
  check (account_checks account)
  modify (λ db. record db { accounts = replace (λ (a : Account). a.id) account db.accounts })

abbrev pub add : Account → Tx (Unit {0})
add account = do
  check_columns (account_columns account)
  same_id ← gets (lookup_account account.id)
  check (not (is_some same_id))
  same_user ← gets (by_user_id account.user_id)
  check (not (is_some same_user))
  check (account_checks account)
  modify (λ db. record db { accounts = db.accounts ++ account ∷ [] })
