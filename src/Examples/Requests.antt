-- ===== src/Examples/Requests.antt =====
-- The theorems on the endpoints, the queries and the texts of amounts, at the market day.
use order_management_system.Prelude.{
  ◌≡◌, String, refl, none, some, arith, nat_eq, true, inl, inr, Bool-cases, subst, ◌==◌,
}
use order_management_system.Prelude.Int.{pos}
use order_management_system.Domain.Enums.{buy, gtc, limit}
use order_management_system.Models.{
  Account, account_columns, account_texts_fit, order_texts_fit, text_fits, amount_fits, cash_fits,
  optional_fits,
}
use order_management_system.Services.OrderService.{initial_order}
use order_management_system.Schemas.{
  OrderInput, AccountInput, validate_order, order_fields_valid, validate_account,
}
use order_management_system.Schemas.Amount.{read_amount, serialize_amount, read-serialize_amount}
use order_management_system.Api.{status_of}
use order_management_system.Api.Orders.{create_order, cancel_order}
use order_management_system.Api.Accounts.{create_account}
use order_management_system.Api.Codes.{
  cancel_order-code, create_order-code, create_account-code, AllFit,
}
use order_management_system.Examples.{
  surroundings, opened, account_opened, part_filled, part_filled-IsConsistent,
}

-- Of the methods of texts these examples need no more.
abbrev pub unchanged : String → String
unchanged s = s

abbrev pub order_input : OrderInput
order_input = record {
  client_order_id = "ORDER-1001";
  idempotency_key = "client-1001-order-1001";
  account_id = 1;
  symbol = "RELIANCE";
  side = buy;
  order_type = limit;
  time_in_force = gtc;
  quantity = pos 100;
  price = pos 100;
}

abbrev account_input : AccountInput
account_input = record { user_id = "user-1001"; initial_cash_balance = pos 5; currency = "INR" }

opened-AllFit : AllFit opened
unfolding opened account_texts_fit text_fits cash_fits
opened-AllFit k a h = elim (Bool-cases (1 == k)) [
  | inl own ↦
      let same : account_opened ≡ a = ground arith in
      subst (λ (x : Account). account_columns x ≡ true) same refl
  | inr other ↦ absurd (ground arith)
]

create_order-code_example :
    status_of (create_order (surroundings 7) unchanged unchanged order_input none opened).0 ≡ 201
unfolding opened validate_order order_fields_valid initial_order account_texts_fit order_texts_fit
    text_fits amount_fits cash_fits optional_fits
create_order-code_example =
    create_order-code (surroundings 7) unchanged unchanged order_input opened refl opened-AllFit

cancel_order-code_example : status_of (cancel_order 7 (some "timeout") part_filled).0 ≡ 500
unfolding part_filled
cancel_order-code_example =
    cancel_order-code 7 (some "timeout") part_filled part_filled-IsConsistent.sound

create_account-code_example : status_of (create_account 7 unchanged account_input opened).0 ≡ 409
unfolding opened validate_account
create_account-code_example = create_account-code 7 unchanged account_input opened refl

-- The text is 12.50000000.
read-serialize_amount_example : read_amount (serialize_amount 1250000000) 0 ≡ some 1250000000
read-serialize_amount_example = read-serialize_amount 1250000000 (omega arith)
