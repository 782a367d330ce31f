-- ===== src/Services/AccountService/Cash.antt =====
-- The creation of an account keeps the reserves backed and leaves the orders alone.
use order_management_system.Prelude.{
  string_eq, ℕ, ◌≡◌, none, arith, [], ◌∷◌, ◌++◌, nat_eq, refl, subst, sym,
}
use order_management_system.Prelude.Table.{find}
use order_management_system.Domain.Errors.{ok}
use order_management_system.Models.{Db, Account}
use order_management_system.Persistence.Session.{begin, begin_keeps}
use order_management_system.Services.AccountService.{
  AccountCreate, new_account, account_block, create_account,
}
use order_management_system.Soundness.{AllSound}
use order_management_system.Soundness.Evolution.{Evolves, Evolves-same}
use order_management_system.Journal.{IsJournal, IsJournal-same}
use order_management_system.Accounting.{Backed, IsBacked-account_append, Backed-same}

module _ (id : ℕ) (payload : AccountCreate) (db : Db) where
  account_block-effect :
      (a : Account) (db' : Db)
      → account_block id payload db ≡ ok (a, db')
      → (find (λ (x : Account). x.id) id db.accounts ≡ none)
        × (find (λ (x : Account). x.user_id) payload.user_id db.accounts ≡ none)
        × (db'.accounts ≡ db.accounts ++ new_account id payload ∷ [])
        × (db'.orders ≡ db.orders)
  unfolding account_block
  account_block-effect a db' h = ground arith

  -- The handler of the conflict changes the answer, and not the database.
  pub conflict_keeps : (create_account id payload db).1 ≡ (begin (account_block id payload) db).1
  unfolding create_account
  conflict_keeps = ground arith

  -- The creation of an account keeps the reserves backed.
  pub create_account-Backed : Backed db → Backed (create_account id payload db).1
  create_account-Backed b = subst Backed (sym conflict_keeps) (
      begin_keeps Backed (account_block id payload) db b λ a db' run.
        let (fresh, fresh_user, accounts, orders) = account_block-effect a db' run in
        Backed-same (IsBacked-account_append (new_account id payload) b fresh fresh_user refl)
          accounts orders)

  -- The creation of an account leaves every stored order as it is.
  pub create_account-AllSound :
      AllSound db.orders → AllSound (create_account id payload db).1.orders
  create_account-AllSound all =
      subst (λ (d : Db). AllSound d.orders) (sym conflict_keeps)
        (begin_keeps (λ d. AllSound d.orders) (account_block id payload) db all
          λ a db' run. subst AllSound (sym (account_block-effect a db' run).3) all)

  pub create_account-Evolves : Evolves db (create_account id payload db).1
  create_account-Evolves = subst (Evolves db) (sym conflict_keeps) (
      begin_keeps (Evolves db) (account_block id payload) db (Evolves-same db db refl)
        λ a db' run. Evolves-same db db' (account_block-effect a db' run).3)

  create_account-frame :
      ((create_account id payload db).1.order_events ≡ db.order_events)
      × ((create_account id payload db).1.fills ≡ db.fills)
      × ((create_account id payload db).1.orders ≡ db.orders)
      × ((create_account id payload db).1.processed_events ≡ db.processed_events)
  unfolding create_account account_block
  create_account-frame = ground arith

  -- The creation of an account leaves the audit trail, the fills and the orders as they are.
  pub create_account-IsJournal : IsJournal db → IsJournal (create_account id payload db).1
  create_account-IsJournal =
      let (events, fills, orders, seen) = create_account-frame in
      IsJournal-same db (create_account id payload db).1 orders events fills

  pub create_account-processed :
      (create_account id payload db).1.processed_events ≡ db.processed_events
  create_account-processed = create_account-frame.3
