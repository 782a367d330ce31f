-- ===== src/Keys.antt =====
-- The keys of the tables of accounts and orders: primary keys, unique constraints, and the account
-- that an order refers to.
use mathlib.Core.List.{map-append}
use order_management_system.Prelude.{
  ℕ, ◌≡◌, String, true, none, some, List, [], ◌∷◌, ◌++◌, map, ◌==◌, arith, inl, inr, Bool-cases,
  nat_eq, string_eq,
}
use order_management_system.Prelude.Table.{find, replace}
use order_management_system.Prelude.Distinct.{
  is_in, Distinct, is_in-append, Distinct-append, is_in-find, find-is_in, map-replace,
}
use order_management_system.Models.{Account, Order}
use order_management_system.Persistence.Positions.{position_key_eq}

abbrev pub account_ids : List Account → List ℕ
account_ids = map (λ (a : Account). a.id)

abbrev pub user_ids : List Account → List String
user_ids = map (λ (a : Account). a.user_id)

abbrev pub order_ids : List Order → List ℕ
order_ids = map (λ (o : Order). o.id)

abbrev pub owner_ids : List Order → List ℕ
owner_ids = map (λ (o : Order). o.account_id)

-- `uq_orders_account_client_order` and `uq_orders_account_idempotency_key`
abbrev pub client_key : Order → ℕ × String
client_key o = (o.account_id, o.client_order_id)

abbrev pub idempotency_key : Order → ℕ × String
idempotency_key o = (o.account_id, o.idempotency_key)

abbrev pub client_keys : List Order → List (ℕ × String)
client_keys = map client_key

abbrev pub idempotency_keys : List Order → List (ℕ × String)
idempotency_keys = map idempotency_key

pub record IsKeyed (accounts : List Account) (orders : List Order) : Type 0 where
  pub accounts_by_id : Distinct (account_ids accounts)
  pub accounts_by_user : Distinct (user_ids accounts)
  pub orders_by_id : Distinct (order_ids orders)
  pub orders_by_client : Distinct (client_keys orders)
  pub orders_by_idempotency : Distinct (idempotency_keys orders)
  pub owned : (k : ℕ) → is_in k (owner_ids orders) ≡ true → is_in k (account_ids accounts) ≡ true

-- The keys under which a row stands.
abbrev pub account_key : Account → ℕ × String
account_key a = (a.id, a.user_id)

abbrev pub order_key : Order → ℕ × ℕ × String × String
order_key o = (o.id, o.account_id, o.client_order_id, o.idempotency_key)

-- No order stands under the keys of a new one.
pub record IsFreshRow (o : Order) (orders : List Order) : Type 0 where
  pub fresh_id : find (λ (x : Order). x.id) o.id orders ≡ none
  pub fresh_client : find client_key (client_key o) orders ≡ none
  pub fresh_key : find idempotency_key (idempotency_key o) orders ≡ none

module _ {accounts : List Account} {orders : List Order} (v : IsKeyed accounts orders) where
  -- An order that is written anew under its old keys.
  pub IsKeyed-order :
      (o o' : Order)
      → find (λ (x : Order). x.id) o'.id orders ≡ some o
      → order_key o' ≡ order_key o
      → IsKeyed accounts (replace (λ (x : Order). x.id) o' orders)
  IsKeyed-order o o' ho same =
      let stays = λ (C : Type 0) (column : Order → C) (e : column o' ≡ column o).
        map-replace (λ (x : Order). x.id) column o' orders o ho e in
      record {
        accounts_by_id = v.accounts_by_id;
        accounts_by_user = v.accounts_by_user;
        orders_by_id = rw (stays ℕ (λ (x : Order). x.id) (cc same)) v.orders_by_id;
        orders_by_client = rw (stays (ℕ × String) client_key (cc same)) v.orders_by_client;
        orders_by_idempotency =
            rw (stays (ℕ × String) idempotency_key (cc same)) v.orders_by_idempotency;
        owned = rw (stays ℕ (λ (x : Order). x.account_id) (cc same)) v.owned;
      }

  -- An account that is written anew under its old keys.
  pub IsKeyed-account :
      (a a' : Account)
      → find (λ (x : Account). x.id) a'.id accounts ≡ some a
      → account_key a' ≡ account_key a
      → IsKeyed (replace (λ (x : Account). x.id) a' accounts) orders
  IsKeyed-account a a' ha same =
      let stays = λ (C : Type 0) (column : Account → C) (e : column a' ≡ column a).
        map-replace (λ (x : Account). x.id) column a' accounts a ha e in
      record {
        accounts_by_id = rw (stays ℕ (λ (x : Account). x.id) (cc same)) v.accounts_by_id;
        accounts_by_user =
            rw (stays String (λ (x : Account). x.user_id) (cc same)) v.accounts_by_user;
        orders_by_id = v.orders_by_id;
        orders_by_client = v.orders_by_client;
        orders_by_idempotency = v.orders_by_idempotency;
        owned = rw (stays ℕ (λ (x : Account). x.id) (cc same)) v.owned;
      }

  -- A new order of an account that is there, under keys that are not.
  pub IsKeyed-place :
      (o : Order) (a : Account)
      → find (λ (x : Account). x.id) o.account_id accounts ≡ some a
      → IsFreshRow o orders
      → IsKeyed accounts (orders ++ o ∷ [])
  IsKeyed-place o a ha fresh = record {
    accounts_by_id = v.accounts_by_id;
    accounts_by_user = v.accounts_by_user;
    orders_by_id = rw (map-append (λ (x : Order). x.id) orders (o ∷ [])) (
        Distinct-append (order_ids orders) o.id v.orders_by_id
          (is_in-find (λ (x : Order). x.id) o.id orders fresh.fresh_id));
    orders_by_client = rw (map-append client_key orders (o ∷ [])) (
        Distinct-append (client_keys orders) (client_key o) v.orders_by_client
          (is_in-find client_key (client_key o) orders fresh.fresh_client));
    orders_by_idempotency = rw (map-append idempotency_key orders (o ∷ [])) (
        Distinct-append (idempotency_keys orders) (idempotency_key o) v.orders_by_idempotency
          (is_in-find idempotency_key (idempotency_key o) orders fresh.fresh_key));
    owned = λ k h. elim (Bool-cases (o.account_id == k)) [
      | inl own ↦ ground (arith, find-is_in (λ (x : Account). x.id) o.account_id accounts a ha)
      | inr other ↦ v.owned k (
          ground (
            arith,
            map-append (λ (x : Order). x.account_id) orders (o ∷ []),
            is_in-append k (owner_ids orders) o.account_id,
          ))
    ];
  }

  -- A new account, under keys that are not taken.
  pub IsKeyed-open :
      (a : Account)
      → find (λ (x : Account). x.id) a.id accounts ≡ none
      → find (λ (x : Account). x.user_id) a.user_id accounts ≡ none
      → IsKeyed (accounts ++ a ∷ []) orders
  IsKeyed-open a fresh_id fresh_user = record {
    accounts_by_id = rw (map-append (λ (x : Account). x.id) accounts (a ∷ [])) (
        Distinct-append (account_ids accounts) a.id v.accounts_by_id
          (is_in-find (λ (x : Account). x.id) a.id accounts fresh_id));
    accounts_by_user = rw (map-append (λ (x : Account). x.user_id) accounts (a ∷ [])) (
        Distinct-append (user_ids accounts) a.user_id v.accounts_by_user
          (is_in-find (λ (x : Account). x.user_id) a.user_id accounts fresh_user));
    orders_by_id = v.orders_by_id;
    orders_by_client = v.orders_by_client;
    orders_by_idempotency = v.orders_by_idempotency;
    owned = λ k h. ground (
      arith,
      v.owned k h,
      map-append (λ (x : Account). x.id) accounts (a ∷ []),
      is_in-append k (account_ids accounts) a.id,
    );
  }

pub nothing-IsKeyed : IsKeyed [] []
unfolding Distinct
nothing-IsKeyed = record {
  accounts_by_id = tt;
  accounts_by_user = tt;
  orders_by_id = tt;
  orders_by_client = tt;
  orders_by_idempotency = tt;
  owned = λ k h. cc h;
}
