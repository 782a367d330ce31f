-- ===== src/System/Repeats.antt =====
-- A request for an order that is sent again, whatever has happened in between.
use order_management_system.Prelude.{
  ℕ, ◌≡◌, sym, subst, ap, String, Bool, true, Option, some, none, inl, inr, arith, Option-cases,
  nat_eq, string_eq, str_eq_iff, refl, ◌∙◌,
}
use order_management_system.Prelude.Table.{find, find-append_self}
use order_management_system.Prelude.Distinct.{is_in-find, find_unique, find-column}
use order_management_system.Domain.Errors.{ok, Result-cases}
use order_management_system.Models.{Db, Order, Account, OrderCreate}
use order_management_system.Persistence.Session.{begin}
use order_management_system.Persistence.Orders.{by_idempotency_key}
use order_management_system.Persistence.Positions.{position_key_eq}
use order_management_system.Keys.{idempotency_key}
use order_management_system.Accounting.{order_id, account_id}
use order_management_system.Soundness.{SameTerms}
use order_management_system.Soundness.Evolution.{Later}
use order_management_system.Services.OrderService.Repeats.{create_order-found, creation_block-own}
use order_management_system.Services.OrderService.{
  Surroundings, order_matches_request, creation_block, create_order, submit,
}
use order_management_system.System.{
  Reach, create, IsConsistent, Reach-IsConsistent, Step-IsConsistent, Reach-Evolves,
}

-- The match depends on the terms alone, which never change.
matches_later :
    (o r : Order) (payload : OrderCreate)
    → SameTerms o r
    → order_matches_request o payload ≡ true
    → order_matches_request r payload ≡ true
unfolding order_matches_request
matches_later o r payload s h = ground arith

-- The account of a stored order is there.
owner_of :
    {db : Db} (id : ℕ) (o : Order)
    → IsConsistent db
    → find order_id id db.orders ≡ some o
    → (a : Account) × (find account_id o.account_id db.accounts ≡ some a)
owner_of {db} id o c h = elim (Option-cases (find account_id o.account_id db.accounts)) [
  | inr found ↦ found
  | inl missing ↦ absurd (
      ground (
        arith,
        c.backed.keyed.owned o.account_id
            (find-column order_id (λ (x : Order). x.account_id) id db.orders o h),
        is_in-find account_id o.account_id db.accounts missing,
      ))
]

-- A stored order that has the terms and the keys of a request answers it.
answers :
    (env : Surroundings) (payload : OrderCreate) (failure : Option String) {db : Db} (r : Order)
    → IsConsistent db
    → find order_id r.id db.orders ≡ some r
    → order_matches_request r payload ≡ true
    → r.account_id ≡ payload.account_id
    → r.idempotency_key ≡ payload.idempotency_key
    → create_order env payload failure db ≡ (ok r, db)
answers env payload failure {db} r c h own same_account same_key =
    let (a, ha) = owner_of r.id r c h in
    let keyed : by_idempotency_key r.account_id r.idempotency_key db ≡ some r =
      find_unique order_id idempotency_key r.id db.orders r c.backed.keyed.orders_by_idempotency
        h in
    create_order-found env payload failure a r db
      (subst (λ k. find account_id k db.accounts ≡ some a) same_account ha)
      (rw (← same_account, ← same_key) keyed) own

-- The order of an answer is stored under its own id, with the terms and the keys of the request.
answered_own :
    (env : Surroundings) (payload : OrderCreate) (o : Order) (should_route : Bool) (db db' : Db)
    → IsConsistent db
    → creation_block env payload db ≡ ok ((o, should_route), db')
    → (find order_id o.id db'.orders ≡ some o)
      × (order_matches_request o payload ≡ true)
      × (o.account_id ≡ payload.account_id)
      × (o.idempotency_key ≡ payload.idempotency_key)
answered_own env payload o should_route db db' c h =
    let (own, keyed, place) = creation_block-own env payload o should_route db db' h in
    let same_account : o.account_id ≡ payload.account_id = ground arith in
    let same_key : o.idempotency_key ≡ payload.idempotency_key =
      ground (arith, str_eq_iff o.idempotency_key payload.idempotency_key) in
    let stored : find order_id o.id db'.orders ≡ some o = elim place [
      | inl (same, found) ↦
          subst (λ (d : Db). find order_id o.id d.orders ≡ some o) (sym same)
            (find_unique idempotency_key order_id (payload.account_id, payload.idempotency_key)
              db.orders o c.backed.keyed.orders_by_id found)
      | inr (added, fresh) ↦ rw added (find-append_self order_id o db.orders fresh.fresh_id)
    ] in
    (stored, own, same_account, same_key)

answered_block :
    (env : Surroundings) (payload : OrderCreate) (o : Order) (db : Db)
    → (create_order env payload none db).0 ≡ ok o
    → (should_route : Bool) × (creation_block env payload db
        ≡ ok ((o, should_route), (create_order env payload none db).1))
unfolding create_order submit
answered_block env payload o db h = elim (Result-cases (creation_block env payload db)) [
  | inl (e, failed) ↦ absurd (ground arith)
  | inr ((((x, should_route), db')), run) ↦ (should_route, ground arith)
]

begun :
    (env : Surroundings) (payload : OrderCreate) (db : Db) (x : Order × Bool) (db' : Db)
    → creation_block env payload db ≡ ok (x, db')
    → begin (creation_block env payload) db ≡ (ok x, db')
begun env payload db x db' run = rw (run, begin) refl

-- From a consistent database on, a creation that was answered with an order, with the broker up, is
-- answered with that order whenever the request is sent again, whatever has happened in between and
-- whether the broker is up or not: with its row as it then is, of the same terms. Nothing changes.
pub create_order-again :
    (env env' : Surroundings) (payload : OrderCreate) (failure : Option String) (o : Order)
    {db later : Db}
    → IsConsistent db
    → (create_order env payload none db).0 ≡ ok o
    → Reach (create_order env payload none db).1 later
    → (r : Order) × (find order_id o.id later.orders ≡ some r)
      × Later o r
      × (create_order env' payload failure later ≡ (ok r, later))
create_order-again env env' payload failure o {db} {later} c answered reach =
    let (should_route, run) = answered_block env payload o db answered in
    let (stored, own, same_account, same_key) =
      answered_own env payload o should_route db _ c run in
    let mid : IsConsistent (create_order env payload none db).1 =
      subst IsConsistent (ap (λ x. x.1) (begun env payload db _ _ run))
        (Step-IsConsistent (create env payload) c) in
    let (r, found, row) = Reach-Evolves mid reach o.id o stored in
    (
      r,
      found,
      row,
      answers env' payload failure r (Reach-IsConsistent mid reach)
          (subst (λ k. find order_id k later.orders ≡ some r) (sym row.terms.id) found)
          (matches_later o r payload row.terms own) (row.terms.account_id ∙ same_account)
          (row.terms.idempotency_key ∙ same_key),
    )
