-- ===== src/Services/CancellationService/Cash.antt =====
-- A request for cancellation keeps the reserves backed and the orders sound.
use order_management_system.Prelude.{
  ℕ, ◌+◌, ◌≡◌, refl, String, Bool, some, inl, inr, arith, Option-cases, Bool-cases, nat_eq,
}
use order_management_system.Prelude.Table.{find, find-key}
use order_management_system.Domain.Enums.{cancel_pending, status_eq}
use order_management_system.Domain.Errors.{ok}
use order_management_system.Models.{Db, Order}
use order_management_system.Persistence.Session.{begin_keeps}
use order_management_system.Services.Lifecycle.{transition}
use order_management_system.Services.CancellationService.{
  request_of, cancellation_block, request_cancellation,
}
use order_management_system.Accounting.{order_id, held, Backed, Backed-frame, IsBacked-order}
use order_management_system.Soundness.{
  IsSound, AllSound, Effect, untouched, rewritten, Effect-AllSound, one_order,
}
use order_management_system.Soundness.Evolution.{Evolves, Evolves-same, Touches-Evolves}

abbrev pub pending_order : Order → Order
pending_order o = record o { status = cancel_pending; version = o.version + 1 }

module _ (o r : Order) (reason : String) (notify : Bool) (db db' : Db) (s : IsSound o)
    (ho : find order_id o.id db.orders ≡ some o)
    (h : request_of o reason db ≡ ok ((r, notify), db')) where
  request_of-Effect : Effect o db db'
  unfolding request_of transition
  request_of-Effect = elim (Bool-cases (status_eq o.status cancel_pending)) [
    | inl pending ↦ untouched (ground arith)
    | inr other ↦
        rewritten (pending_order o)
          (record { terms = ground arith; progress = ground arith; orders = ground arith })
          (λ _. ground arith) (ground arith)
  ]

  request_of-Backed : Backed db → Backed db'
  unfolding request_of transition held
  request_of-Backed b = elim (Bool-cases (status_eq o.status cancel_pending)) [
    | inl pending ↦ Backed-frame db db' (ground arith) (ground arith) b
    | inr other ↦ ground (arith, IsBacked-order b o (pending_order o) ho refl (ground arith))
  ]

module _ (id : ℕ) (reason : String) (db : Db) (all : AllSound db.orders) where
  cancellation_block-cases :
      (r : Order) (notify : Bool) (db' : Db)
      → cancellation_block id reason db ≡ ok ((r, notify), db')
      → (o : Order) × (find order_id id db.orders ≡ some o)
        × (request_of o reason db ≡ ok ((r, notify), db'))
  unfolding cancellation_block
  cancellation_block-cases r notify db' h = elim (Option-cases (find order_id id db.orders)) [
    | inl unknown ↦ absurd (ground arith)
    | inr (o, ho) ↦ (o, ho, ground arith)
  ]

  -- A request for cancellation keeps every stored order sound.
  pub request_cancellation-AllSound : AllSound (request_cancellation id reason db).1.orders
  unfolding request_cancellation
  request_cancellation-AllSound =
      begin_keeps (λ d. AllSound d.orders) (cancellation_block id reason) db all
        λ (r, notify) db' run.
          let (o, ho, h) = cancellation_block-cases r notify db' run in
          let row = find-key order_id id db.orders o ho in
          Effect-AllSound o (request_of-Effect o r reason notify db db' (all id o ho) row h) row all

  -- A request for cancellation keeps the reserves backed.
  pub request_cancellation-Backed : Backed db → Backed (request_cancellation id reason db).1
  unfolding request_cancellation
  request_cancellation-Backed b =
      begin_keeps Backed (cancellation_block id reason) db b λ (r, notify) db' run.
        let (o, ho, h) = cancellation_block-cases r notify db' run in
        request_of-Backed o r reason notify db db' (all id o ho)
          (find-key order_id id db.orders o ho) h b

  pub request_cancellation-Evolves : Evolves db (request_cancellation id reason db).1
  unfolding request_cancellation
  request_cancellation-Evolves =
      begin_keeps (Evolves db) (cancellation_block id reason) db (Evolves-same db db refl)
        λ (r, notify) db' run.
          let (o, ho, h) = cancellation_block-cases r notify db' run in
          let row = find-key order_id id db.orders o ho in
          Touches-Evolves
            (one_order o row (request_of-Effect o r reason notify db db' (all id o ho) row h))
