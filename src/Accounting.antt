-- ===== src/Accounting.antt =====
-- The invariant between the cash that an account holds back and the buy orders that are open.
use order_management_system.Prelude.{
  ℕ, ◌+◌, ◌*◌, ◌≤◌, ◌≡◌, none, some, List, [], ◌∷◌, ◌++◌, ◌∙◌, arith, ◌==◌, ◌&&◌, nat_eq, string_eq,
  if◌then◌else◌,
}
use order_management_system.Prelude.Table.{
  find, find_where-append, replace, sum_of, find-replace, find-replace_self, key-find,
  sum_of-replace, sum_of-append, le-sum_of,
}
use order_management_system.Domain.Enums.{is_buy, status_in}
use order_management_system.Models.{Db, Order, Account}
use order_management_system.Services.ExecutionService.{live_statuses}
use order_management_system.Keys.{
  IsKeyed, IsFreshRow, account_key, order_key, IsKeyed-order, IsKeyed-account, IsKeyed-place,
  IsKeyed-open,
}

abbrev pub order_id : Order → ℕ
order_id o = o.id

abbrev pub account_id : Account → ℕ
account_id a = a.id

-- A multiple of 10^8: of a quantity a whole number, of cash an amount of at most eight places.
abbrev pub IsWhole : ℕ → Type 0
IsWhole n = (k : ℕ) × (n ≡ k * 100000000)

-- The cash that an order needs in reserve: that of an open buy order for what is not filled.
unfoldable pub held : Order → ℕ
held o =
    if is_buy o.side && status_in o.status live_statuses then o.remaining_quantity * o.price else 0

-- The same, counted for one account.
abbrev pub held_for : ℕ → Order → ℕ
held_for id o = if o.account_id == id then held o else 0

-- Every account holds back exactly what its open buy orders need, and no more than it has.
pub record IsBacked (accounts : List Account) (orders : List Order) : Type 0 where
  pub reserved :
      (id : ℕ) (a : Account)
      → find account_id id accounts ≡ some a
      → a.reserved_cash ≡ sum_of (held_for id) orders
  pub solvent :
      (id : ℕ) (a : Account)
      → find account_id id accounts ≡ some a
      → a.reserved_cash ≤ a.cash_balance
  -- no cash is held for an account that is not there
  pub unowned : (id : ℕ) → find account_id id accounts ≡ none → sum_of (held_for id) orders ≡ 0
  -- the rows stand under keys of their own, and orders under accounts that are there
  pub keyed : IsKeyed accounts orders

module _ {accounts : List Account} {orders : List Order} (b : IsBacked accounts orders) where
  -- Each order's share is in the reserve.
  pub held-le-reserved :
      (o : Order) (a : Account) (id : ℕ)
      → find order_id id orders ≡ some o
      → find account_id o.account_id accounts ≡ some a
      → held o ≤ a.reserved_cash
  held-le-reserved o a id ho ha = ground (
    arith,
    b.reserved o.account_id a ha,
    le-sum_of order_id (held_for o.account_id) id orders o ho,
  )

  -- A change of one order that needs the same reserve.
  pub IsBacked-order :
      (o o' : Order)
      → find order_id o'.id orders ≡ some o
      → order_key o' ≡ order_key o
      → held o' ≡ held o
      → IsBacked accounts (replace order_id o' orders)
  IsBacked-order o o' ho kept same =
      let own : o'.account_id ≡ o.account_id = cc kept in
      record {
        reserved = λ id x h.
            ground (arith, sum_of-replace order_id (held_for id) o' orders o ho, b.reserved id x h);
        solvent = b.solvent;
        unowned = λ id h.
            ground (arith, sum_of-replace order_id (held_for id) o' orders o ho, b.unowned id h);
        keyed = IsKeyed-order b.keyed o o' ho kept;
      }

  -- A new order that needs no reserve.
  pub IsBacked-append :
      (o : Order) (a : Account)
      → find account_id o.account_id accounts ≡ some a
      → IsFreshRow o orders
      → held o ≡ 0
      → IsBacked accounts (orders ++ o ∷ [])
  IsBacked-append o a ha fresh free = record {
    reserved =
        λ id x h. ground (arith, sum_of-append (held_for id) orders (o ∷ []), b.reserved id x h);
    solvent = b.solvent;
    unowned = λ id h. ground (arith, sum_of-append (held_for id) orders (o ∷ []), b.unowned id h);
    keyed = IsKeyed-place b.keyed o a ha fresh;
  }

abbrev pub Backed : Db → Type 0
Backed db = IsBacked db.accounts db.orders

-- One order and its account have been written, and the reserve has moved with what the order holds.
pub record Settles (o o' : Order) (db db' : Db) : Type 0 where
  pub before : Account
  pub after : Account
  pub found : find account_id o.account_id db.accounts ≡ some before
  pub same_account : account_key after ≡ account_key before
  pub moved : after.reserved_cash + held o ≡ before.reserved_cash + held o'
  pub covered : after.reserved_cash ≤ after.cash_balance
  pub accounts : db'.accounts ≡ replace account_id after db.accounts
  pub orders : db'.orders ≡ replace order_id o' db.orders

pub Settles-Backed :
    {db db' : Db} (o o' : Order)
    → Settles o o' db db'
    → Backed db
    → find order_id o.id db.orders ≡ some o
    → order_key o' ≡ order_key o
    → Backed db'
Settles-Backed {db} {db'} o o' s b ho kept =
    let same_id : o'.id ≡ o.id = cc kept in
    let same_owner : o'.account_id ≡ o.account_id = cc kept in
    let same_account : s.after.id ≡ s.before.id = cc s.same_account in
    let owner = key-find account_id o.account_id db.accounts s.before s.found in
    let found_after : find account_id s.after.id db.accounts ≡ some s.before =
      rw (same_account ∙ owner) s.found in
    let found_order : find order_id o'.id db.orders ≡ some o = rw same_id ho in
    rw (s.accounts, s.orders)
      (record {
        reserved = λ id x h. ground (
          arith,
          find-replace account_id id s.after db.accounts s.before found_after,
          sum_of-replace order_id (held_for id) o' db.orders o found_order,
          b.reserved id x,
          b.reserved o.account_id s.before s.found,
        );
        solvent = λ id x h. ground (
          arith,
          find-replace account_id id s.after db.accounts s.before found_after,
          b.solvent id x,
        );
        unowned = λ id h. ground (
          arith,
          find-replace account_id id s.after db.accounts s.before found_after,
          sum_of-replace order_id (held_for id) o' db.orders o found_order,
          b.unowned id,
          owner,
        );
        keyed =
            IsKeyed-order (IsKeyed-account b.keyed s.before s.after found_after s.same_account) o o'
              found_order kept;
      })

-- What touches neither table keeps them backed.
pub Backed-frame :
    (db db' : Db) → db'.accounts ≡ db.accounts → db'.orders ≡ db.orders → Backed db → Backed db'
Backed-frame db db' same_accounts same_orders b = rw (same_accounts, same_orders) b

-- A new order, for which its account has set aside what it holds.
pub Backed-place :
    (o : Order) (a a' : Account) {accounts : List Account} {orders : List Order}
    → IsBacked accounts orders
    → find account_id a'.id accounts ≡ some a
    → o.account_id ≡ a'.id
    → account_key a' ≡ account_key a
    → IsFreshRow o orders
    → a'.reserved_cash ≡ a.reserved_cash + held o
    → a'.reserved_cash ≤ a'.cash_balance
    → IsBacked (replace account_id a' accounts) (orders ++ o ∷ [])
Backed-place o a a' {accounts} {orders} b ha own kept fresh raised covered = record {
  reserved = λ id x h. ground (
    arith,
    find-replace account_id id a' accounts a ha,
    sum_of-append (held_for id) orders (o ∷ []),
    b.reserved id x,
    b.reserved a'.id a ha,
  );
  solvent = λ id x h. ground (arith, find-replace account_id id a' accounts a ha, b.solvent id x);
  unowned = λ id h. ground (
    arith,
    find-replace account_id id a' accounts a ha,
    sum_of-append (held_for id) orders (o ∷ []),
    b.unowned id,
  );
  keyed =
      IsKeyed-place (IsKeyed-account b.keyed a a' ha kept) o a'
        (rw own (find-replace_self account_id a' accounts a ha)) fresh;
}

-- A new account, which holds nothing back.
pub IsBacked-account_append :
    {accounts : List Account} {orders : List Order} (a : Account)
    → IsBacked accounts orders
    → find account_id a.id accounts ≡ none
    → find (λ (y : Account). y.user_id) a.user_id accounts ≡ none
    → a.reserved_cash ≡ 0
    → IsBacked (accounts ++ a ∷ []) orders
IsBacked-account_append {accounts} {orders} a b fresh fresh_user empty = record {
  reserved = λ id x h. ground (
    arith,
    find_where-append (λ (y : Account). y.id == id) accounts a,
    b.reserved id x,
    b.unowned id,
  );
  solvent = λ id x h.
      ground (arith, find_where-append (λ (y : Account). y.id == id) accounts a, b.solvent id x);
  unowned = λ id h.
      ground (arith, find_where-append (λ (y : Account). y.id == id) accounts a, b.unowned id);
  keyed = IsKeyed-open b.keyed a fresh fresh_user;
}

pub Backed-same :
    {accounts accounts' : List Account} {orders orders' : List Order}
    → IsBacked accounts orders
    → accounts' ≡ accounts
    → orders' ≡ orders
    → IsBacked accounts' orders'
Backed-same b ea eo = rw (ea, eo) b
