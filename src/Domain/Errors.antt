-- ===== src/Domain/Errors.antt =====
-- app/domain/exceptions.py: the exceptions as values, each with the arguments that it is raised with.
-- The last four are raised below the domain: a constraint of the database, a value that its column
-- does not take, `decimal`, and the broker, with the text of its exception.
use order_management_system.Prelude.{ℕ, String, ◌≡◌, refl, ◌⊎◌, inl, inr, Bool, true, false}
use order_management_system.Domain.Enums.{OrderStatus}

pub data Error : Type 0 where
  order_not_found account_not_found : ℕ → Error
  invalid_state_transition : OrderStatus → OrderStatus → Error
  insufficient_buying_power broker_unavailable : Error
  duplicate_order duplicate_account invalid_cancellation invalid_fill : String → Error
  integrity_error data_error invalid_operation : Error
  broker_error : String → Error

pub data Result {ℓ} (A : Type ℓ) : Type ℓ where
  ok : A → Result A
  err : Error → Result A

infixl 5 ◌>>=◌
abbrev pub ◌>>=◌ : {A B : Type 0} → Result A → (A → Result B) → Result B
err failure >>= next = err failure
ok value >>= next = next value

-- `if test: raise e`
abbrev pub raise_if : Bool → Error → Result (Unit {0})
raise_if true e = err e
raise_if false e = ok tt

pub Result-cases {ℓ} :
    {A : Type ℓ} (r : Result A) → ((e : Error) × (r ≡ err e)) ⊎ ((a : A) × (r ≡ ok a))
Result-cases (ok a) = inr (a, refl)
Result-cases (err e) = inl (e, refl)
