-- ===== src/Api/Codes.antt =====
-- The codes with which the endpoints answer.
use order_management_system.Prelude.{
  Option, true, false, ℕ, ◌<◌, ◌≡◌, String, none, some, inl, inr, arith, Option-cases, Bool-cases,
  nat_eq, if◌then◌else◌,
}
use order_management_system.Prelude.Table.{find, is_some, Every}
use order_management_system.Domain.Enums.{cancel_pending, status_eq, status_in}
use order_management_system.Domain.StateMachine.{cancellable_order_statuses}
use order_management_system.Models.{Db, Account, OrderCreate, order_columns, account_columns}
use order_management_system.Persistence.Orders.{by_idempotency_key, by_client_order_id}
use order_management_system.Persistence.Accounts.{by_user_id}
use order_management_system.Services.AccountService.{account_block, new_account}
use order_management_system.Services.AccountService
use order_management_system.Api.Accounts.{create_account}
use order_management_system.Schemas.{
  AccountInput, validate_account, OrderInput, validate_order, order_fields_valid,
}
use order_management_system.Services.CancellationService.Answers.{
  request_cancellation_answer, unknown_refused,
}
use order_management_system.Services.OrderService.Admission.{IsFresh, create_order_answer}
use order_management_system.Services.OrderService.{
  Surroundings, initial_order, order_matches_request, place_order, creation_block, submit,
}
use order_management_system.Services.OrderService
use order_management_system.Accounting.{order_id, account_id}
use order_management_system.Soundness.{AllSound}
use order_management_system.Api.{status_of, respond, error_code}
use order_management_system.Api.Orders.{create_order, cancel_order}

-- Among sound orders, the endpoint that cancels an order answers 404 where there is none, 202 where it is
-- pending, 409 where it is terminal, and where it is open 202 if the broker takes the call and 500 if it
-- raises an exception; nothing else.
pub cancel_order-code :
    (id : ℕ) (outage : Option String) (db : Db)
    → AllSound db.orders
    → status_of (cancel_order id outage db).0 ≡ elim (find order_id id db.orders) [
      | none ↦ 404
      | some o ↦
          if status_eq o.status cancel_pending
          then 202
          else if status_in o.status cancellable_order_statuses
          then elim outage [ none ↦ 202 | some message ↦ 500 ]
          else 409
    ]
unfolding cancel_order respond error_code
cancel_order-code id outage db all = elim (Option-cases (find order_id id db.orders)) [
  | inl unknown ↦
      ground (arith, unknown_refused id "Client requested cancellation" outage db unknown)
  | inr (o, ho) ↦
      let (answered, kept) =
        request_cancellation_answer id "Client requested cancellation" outage db o all ho in
      elim (Option-cases outage) [ inl up ↦ ground arith | inr (message, down) ↦ ground arith ]
]

-- The code for a request that is valid.
abbrev pub creation_code : Surroundings → OrderCreate → Db → ℕ
creation_code env payload db = elim (find account_id payload.account_id db.accounts) [
  | none ↦ 404
  | some a ↦ elim (by_idempotency_key payload.account_id payload.idempotency_key db) [
    | some earlier ↦ if order_matches_request earlier payload then 201 else 409
    | none ↦
        if is_some (by_client_order_id payload.account_id payload.client_order_id db)
        then 409
        else if order_columns (initial_order env payload)
        then 201
        else 500
  ]
]

abbrev pub AllFit : Db → Type 0
AllFit db = Every account_id (λ (a : Account). account_columns a ≡ true) db.accounts

creation-positive :
    (strip upper : String → String) (input : OrderInput) (payload : OrderCreate)
    → validate_order strip upper input ≡ some payload
    → (0 < payload.quantity) × (0 < payload.price)
unfolding validate_order order_fields_valid
creation-positive strip upper input payload h = ground arith

module _ (env : Surroundings) (payload : OrderCreate) (db : Db)
    (unused : find order_id env.order_id db.orders ≡ none) (some_quantity : 0 < payload.quantity)
    (some_price : 0 < payload.price) (all : AllFit db) where
  -- A row that its columns do not take is refused.
  creation_misfit :
      (a : Account)
      → find account_id payload.account_id db.accounts ≡ some a
      → by_idempotency_key payload.account_id payload.idempotency_key db ≡ none
      → by_client_order_id payload.account_id payload.client_order_id db ≡ none
      → order_columns (initial_order env payload) ≡ false
      → status_of (respond 201 (OrderService.create_order env payload none db).0) ≡ 500
  unfolding OrderService.create_order creation_block place_order submit respond error_code
  creation_misfit a ha unseen free misfit = ground arith

  creation-code :
      status_of (respond 201 (OrderService.create_order env payload none db).0)
      ≡ creation_code env payload db
  creation-code = elim (Option-cases (find account_id payload.account_id db.accounts)) [
    | inl unknown ↦
        unfold OrderService.create_order creation_block submit respond error_code in ground arith
    | inr (a, ha) ↦
        elim (Option-cases (by_idempotency_key payload.account_id payload.idempotency_key db)) [
          | inr (earlier, seen) ↦ elim (Bool-cases (order_matches_request earlier payload)) [
            | inl same ↦
                unfold OrderService.create_order creation_block submit respond error_code in
                ground arith
            | inr other ↦
                unfold OrderService.create_order creation_block submit respond error_code in
                ground arith
          ]
          | inl unseen ↦
              elim (Option-cases
                (by_client_order_id payload.account_id payload.client_order_id db)) [
                  | inr (taken, named) ↦
                      unfold OrderService.create_order creation_block submit respond error_code in
                      ground arith
                  | inl free ↦ elim (Bool-cases (order_columns (initial_order env payload))) [
                    | inr misfit ↦ ground (arith, creation_misfit a ha unseen free misfit)
                    | inl fits ↦
                        let fresh : IsFresh env payload db = record {
                          fresh_id = unused;
                          fresh_key = unseen;
                          fresh_client = free;
                          some_quantity = some_quantity;
                          some_price = some_price;
                          fits = fits;
                        } in
                        let (answered, stored) =
                          create_order_answer env payload db a ha (all payload.account_id a ha)
                            fresh in
                        unfold respond in ground arith
                  ]
                ]
        ]
  ]

-- While the broker accepts orders, the new id is not taken and the stored accounts are in the limits of
-- their columns, the endpoint that creates an order answers 422 if the request is not valid, and else
-- 404 if the account is unknown, 201 or 409 if its idempotency key is known, as the order under it
-- matches the request or not, 409 if the client's id of the order is taken, 500 if a text or a number
-- of the order does not fit its column, and 201 otherwise.
pub create_order-code :
    (env : Surroundings) (strip upper : String → String) (input : OrderInput) (db : Db)
    → find order_id env.order_id db.orders ≡ none
    → AllFit db
    → status_of (create_order env strip upper input none db).0
      ≡ elim (validate_order strip upper input) [
        | none ↦ 422
        | some payload ↦ creation_code env payload db
      ]
unfolding create_order
create_order-code env strip upper input db unused all =
    elim (Option-cases (validate_order strip upper input)) [
      | inl refused ↦ ground arith
      | inr (payload, valid) ↦
          let (some_quantity, some_price) = creation-positive strip upper input payload valid in
          rw (valid, create_order)
            (creation-code env payload db unused some_quantity some_price all)
    ]

-- While its new id is not taken, the endpoint that opens an account answers 422 if the request is not
-- valid, 409 if the user has an account, 500 if a text or the balance does not fit its column, and 201
-- otherwise.
pub create_account-code :
    (id : ℕ) (upper : String → String) (input : AccountInput) (db : Db)
    → find account_id id db.accounts ≡ none
    → status_of (create_account id upper input db).0 ≡ elim (validate_account upper input) [
      | none ↦ 422
      | some payload ↦
          if is_some (by_user_id payload.user_id db)
          then 409
          else if account_columns (new_account id payload)
          then 201
          else 500
    ]
unfolding create_account AccountService.create_account account_block respond error_code
create_account-code id upper input db unused = elim (Option-cases (validate_account upper input)) [
  | inl refused ↦ ground arith
  | inr (payload, valid) ↦ elim (Option-cases (by_user_id payload.user_id db)) [
    | inl unknown ↦ ground arith
    | inr (a, known) ↦ ground arith
  ]
]
