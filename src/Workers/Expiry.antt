-- ===== src/Workers/Expiry.antt =====
-- What a scan for expired orders does.
use order_management_system.Prelude.{
  ℕ, ◌≤◌, ◌≡◌, ◌∙◌, refl, true, some, List, [], ◌∷◌, inl, inr, arith, ◌==◌, nat_eq, if◌then◌else◌,
  Bool-cases,
}
use order_management_system.Prelude.Table.{find, filter_where}
use order_management_system.Domain.Enums.{cancel_pending, status_eq, status_in}
use order_management_system.Domain.StateMachine.{open_order_statuses}
use order_management_system.Models.{Db, Order}
use order_management_system.Persistence.Queries.{is_expired, list_expired_day_order_ids}
use order_management_system.Persistence.Queries.Lists.{length, contains, list_expired_all}
use order_management_system.Services.CancellationService.{request_cancellation}
use order_management_system.Services.CancellationService.Cash.{
  pending_order, request_cancellation-AllSound,
}
use order_management_system.Services.CancellationService.Answers.{after_request}
use order_management_system.Accounting.{order_id}
use order_management_system.Soundness.{AllSound}
use order_management_system.Workers.{expire_orders, expiry_limit, expiry_reason, expiry_scan}

-- Once pending, an order stays as it is in a scan.
stays_pending :
    (ids : List ℕ) (k : ℕ) (db : Db) (o : Order)
    → AllSound db.orders
    → find order_id k db.orders ≡ some o
    → o.status ≡ cancel_pending
    → find order_id k (expire_orders ids db).orders ≡ some o
unfolding expire_orders
stays_pending [] k db o all h pending = h
stays_pending (id ∷ ids) k db o all h pending =
    stays_pending ids k (request_cancellation id expiry_reason db).1 o
      (request_cancellation-AllSound id expiry_reason db all)
      (after_request id k expiry_reason db o all h ∙ ground arith) pending

-- Every order of a scan is pending after it.
expire_orders-pending :
    (ids : List ℕ) (k : ℕ) (db : Db) (o : Order)
    → AllSound db.orders
    → find order_id k db.orders ≡ some o
    → status_in o.status open_order_statuses ≡ true
    → contains ids k ≡ true
    → find order_id k (expire_orders ids db).orders
      ≡ some (if status_eq o.status cancel_pending then o else pending_order o)
unfolding expire_orders
expire_orders-pending [] k db o all h live listed = absurd (cc listed)
expire_orders-pending (id ∷ ids) k db o all h live listed =
    let db' : Db = (request_cancellation id expiry_reason db).1 in
    let all' : AllSound db'.orders = request_cancellation-AllSound id expiry_reason db all in
    let after = after_request id k expiry_reason db o all h in
    elim (Bool-cases (id == k)) [
      | inl same ↦ elim (Bool-cases (status_eq o.status cancel_pending)) [
        | inl pending ↦
            rw pending (stays_pending ids k db' o all' (after ∙ ground arith) (ground arith))
        | inr fresh ↦
            rw fresh (stays_pending ids k db' (pending_order o) all' (after ∙ ground arith) refl)
      ]
      | inr other ↦
          expire_orders-pending ids k db' o all' (after ∙ ground arith) live (ground arith)
    ]

-- When no more orders have expired than one scan takes, every one of them is, after the scan, waiting for
-- the broker to confirm its cancellation.
pub expiry_scan_cancels :
    (now id : ℕ) (db : Db) (o : Order)
    → AllSound db.orders
    → length (filter_where (is_expired now) db.orders) ≤ expiry_limit
    → find order_id id db.orders ≡ some o
    → is_expired now o ≡ true
    → find order_id id (expiry_scan now db).orders
      ≡ some (if status_eq o.status cancel_pending then o else pending_order o)
unfolding expiry_scan
expiry_scan_cancels now id db o all few h expired =
    expire_orders-pending (list_expired_day_order_ids now expiry_limit db) id db o all h
      (ground arith) (list_expired_all now expiry_limit id db o few h expired)
