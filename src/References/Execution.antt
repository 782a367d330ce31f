-- ===== src/References/Execution.antt =====
-- app/services/execution_service.py and app/services/position_service.py: the keys and the references
-- under a broker event.
use Prim.Native.String.{◌++◌ as str_append}
use order_management_system.Prelude.{
  ℕ, ◌+◌, String, ◌≡◌, refl, true, false, Option, none, some, subst, if◌then◌else◌, List, [], ◌∷◌,
  ◌++◌, ◌==◌, ◌&&◌, leb, ltb, not, inl, inr, Bool-cases, Option-cases, nat_eq, arith,
}
use order_management_system.Prelude.Table.{find, is_some, key-find}
use order_management_system.Prelude.Distinct.{find-column, find-is_in}
use order_management_system.Domain.Enums.{
  OrderStatus, OrderSide, routed, partially_filled, filled, BrokerEventType, full_fill,
  partial_fill, full_fill_received, partial_fill_received, order_rejected, order_cancelled,
  broker_event_ignored, broker_event_value, status_eq, status_in, status_value, tif_index, ioc,
}
use order_management_system.Domain.Errors.{invalid_fill}
use order_management_system.Domain.PositionRules.{calculate_position_after_fill}
use order_management_system.Models.{
  Db, Order, Position, BrokerExecutionEvent, DataValue, text, decimal, uuid, optional_text, applied,
  ignored,
}
use order_management_system.Persistence.Session.{pure, begin_keeps}
use order_management_system.Persistence.Keeps.{
  Keeps, pure-Keeps, raise-Keeps, lift-Keeps, gets-Keeps, if-Keeps, option-Keeps, >>=-Keeps,
}
use order_management_system.Persistence.Events.{lookup_event}
use order_management_system.Persistence.Positions.{lookup_position, lookup_price}
use order_management_system.Services.PositionService.{
  mark_price, fresh_position, updated_position, position_or_new, apply_execution,
}
use order_management_system.Services.ExecutionService.{
  Reply, fill_order, settle, release_remaining_reservation, cancel_remaining, append_partial_fill,
  cancel_ioc_remainder, after_fill, new_fill, fill_data, book_fill, execute_fill, apply_priced_fill,
  apply_fill, apply_rejection, apply_cancellation, dispatch, record_outcome, handle_new_event,
  handle_event, process_event, live_statuses, or_else, is_full_fill,
}
use order_management_system.Keys.{IsKeyed}
use order_management_system.References.{IsReferenced, Tied, Tied-IsClosed}
use order_management_system.References.Blocks.{
  save_account-Keeps, save_order-Keeps, append_event-Keeps, require_account-Keeps, transition-Keeps,
}
use order_management_system.References.Rows.{
  add_fill-Keeps, add_seen-Keeps, add_position-Keeps, save_position-Keeps,
}

-- With the order's row and its account there.
module _ (k j : ℕ) where
  abbrev T : Db → Type 0
  T = Tied k j

  position_or_new-Keeps :
      (symbol : String) (mark : ℕ) (existing : Option Position)
      → Keeps T (position_or_new k symbol mark existing)
  position_or_new-Keeps symbol mark (some p) = pure-Keeps T p
  position_or_new-Keeps symbol mark none =
      let p = fresh_position k symbol mark in
      >>=-Keeps T (add_position-Keeps k j p refl) λ _. pure-Keeps T p

  apply_execution-Keeps :
      (symbol : String) (side : OrderSide) (quantity price : ℕ)
      → Keeps T (apply_execution k symbol side quantity price)
  unfolding apply_execution
  apply_execution-Keeps symbol side quantity price =
      >>=-Keeps T (gets-Keeps T (lookup_position k symbol)) λ existing.
        >>=-Keeps T (gets-Keeps T (lookup_price symbol)) λ market.
          let mark = mark_price market price in
          >>=-Keeps T (position_or_new-Keeps symbol mark existing) λ p.
            >>=-Keeps T
              (lift-Keeps T (
                calculate_position_after_fill p.net_quantity p.average_entry_price p.realized_pnl
                  side quantity price))
              λ result. save_position-Keeps k j (updated_position p result mark)

  cancel_remaining-Keeps :
      (o : Order) (reason : String) (d : List (String × DataValue))
      → Keeps T (cancel_remaining o reason d)
  unfolding cancel_remaining
  cancel_remaining-Keeps o reason d =
      >>=-Keeps T (require_account-Keeps T (Tied-IsClosed k j) o.account_id) λ a.
        >>=-Keeps T (lift-Keeps T (release_remaining_reservation a o)) λ released.
          >>=-Keeps T (save_account-Keeps T (Tied-IsClosed k j) released) λ _.
            transition-Keeps T (Tied-IsClosed k j)
              (record o {
                cancelled_quantity = o.cancelled_quantity + o.remaining_quantity;
                remaining_quantity = 0;
                version = o.version + 1;
              })
              OrderStatus.cancelled order_cancelled
              (d
                ++ ("cancelled_quantity", decimal o.remaining_quantity)
                  ∷ ("reason", text reason)
                  ∷ [])

  partial-Keeps : (o : Order) (d : List (String × DataValue)) → Keeps T (append_partial_fill o d)
  partial-Keeps o d =
      append_event-Keeps T (Tied-IsClosed k j) o partial_fill_received (some o.status)
        (some o.status) d

  after_fill-Keeps : (o : Order) (d : List (String × DataValue)) → Keeps T (after_fill o d)
  unfolding after_fill cancel_ioc_remainder
  after_fill-Keeps o d =
      let move = transition-Keeps T (Tied-IsClosed k j) o in
      if-Keeps T (o.remaining_quantity == 0) (move filled full_fill_received d) (
        if-Keeps T (tif_index o.time_in_force == tif_index ioc)
          (>>=-Keeps T (partial-Keeps o d)
            λ _. cancel_remaining-Keeps o "IOC remainder cancelled" d)
          (if-Keeps T (status_eq o.status routed) (move partially_filled partial_fill_received d)
            (>>=-Keeps T (partial-Keeps o d) λ _. pure-Keeps T o)))

-- The dispatch of an event, over the order that it names and its account.
module _ (o : Order) (event : BrokerExecutionEvent) (same : o.id ≡ event.order_id) where
  abbrev U : Db → Type 0
  U = Tied o.account_id event.order_id

  book_fill-Keeps : (price : ℕ) → Keeps U (book_fill o event price)
  unfolding book_fill
  book_fill-Keeps price =
      let c = Tied-IsClosed o.account_id event.order_id in
      >>=-Keeps U (lift-Keeps U (fill_order o event.filled_quantity price)) λ taken.
        >>=-Keeps U (save_order-Keeps U c taken) λ _.
          >>=-Keeps U
            (add_fill-Keeps o.account_id event.order_id (new_fill o event price)
              (unfold new_fill in same))
            λ _. >>=-Keeps U (require_account-Keeps U c o.account_id) λ a.
              >>=-Keeps U (lift-Keeps U (settle o event.filled_quantity price a)) λ settled.
                >>=-Keeps U (save_account-Keeps U c settled) λ _.
                  >>=-Keeps U
                    (apply_execution-Keeps o.account_id event.order_id o.symbol o.side
                      event.filled_quantity price)
                    λ _. pure-Keeps U taken

  execute_fill-Keeps : (price : ℕ) → Keeps U (execute_fill o event price)
  unfolding execute_fill
  execute_fill-Keeps price = >>=-Keeps U (book_fill-Keeps price) λ taken.
      >>=-Keeps U (after_fill-Keeps o.account_id event.order_id taken (fill_data event price))
        λ _. pure-Keeps U (true, none)

  ignored-Keeps : (reason : String) → Keeps U {A = Reply} (pure (false, some reason))
  ignored-Keeps reason = pure-Keeps U (false, some reason)

  apply_fill-Keeps : Keeps U (apply_fill o event)
  unfolding apply_fill apply_priced_fill
  apply_fill-Keeps =
      if-Keeps U (not (status_in o.status live_statuses))
        (ignored-Keeps (str_append "Order is already " (status_value o.status)))
        (option-Keeps U event.fill_price (raise-Keeps U (invalid_fill "Fill price is required"))
          λ price.
            if-Keeps U (leb event.filled_quantity 0)
              (raise-Keeps U (invalid_fill "Fill quantity must be positive"))
              (if-Keeps U (ltb o.remaining_quantity event.filled_quantity)
                (ignored-Keeps "Fill quantity exceeds remaining quantity")
                (if-Keeps U
                  (is_full_fill event.event_type
                    && not (event.filled_quantity == o.remaining_quantity))
                  (ignored-Keeps "Full-fill event does not consume remaining quantity")
                  (execute_fill-Keeps price))))

  apply_rejection-Keeps : Keeps U (apply_rejection o event)
  unfolding apply_rejection
  apply_rejection-Keeps =
      let c = Tied-IsClosed o.account_id event.order_id in
      let reason : String = or_else event.reason "Rejected by broker" in
      if-Keeps U (not (status_eq o.status routed))
        (ignored-Keeps (str_append "Order cannot be rejected from " (status_value o.status)))
        (>>=-Keeps U (require_account-Keeps U c o.account_id) λ a.
          >>=-Keeps U (lift-Keeps U (release_remaining_reservation a o)) λ released.
            >>=-Keeps U (save_account-Keeps U c released) λ _.
              >>=-Keeps U
                (transition-Keeps U c (record o { rejection_reason = some reason })
                  OrderStatus.rejected order_rejected
                  (("broker_event_id", uuid event.event_id) ∷ ("reason", text reason) ∷ []))
                λ _. pure-Keeps U (true, none))

  apply_cancellation-Keeps : Keeps U (apply_cancellation o event)
  unfolding apply_cancellation
  apply_cancellation-Keeps =
      if-Keeps U (not (status_in o.status live_statuses))
        (ignored-Keeps (str_append "Order cannot be cancelled from " (status_value o.status)))
        (>>=-Keeps U
          (cancel_remaining-Keeps o.account_id event.order_id o
            (or_else event.reason "Cancelled by broker")
            (("broker_event_id", uuid event.event_id) ∷ []))
          λ _. pure-Keeps U (true, none))

  dispatch-Keeps : (t : BrokerEventType) → Keeps U (dispatch t o event)
  unfolding dispatch
  dispatch-Keeps full_fill = apply_fill-Keeps
  dispatch-Keeps partial_fill = apply_fill-Keeps
  dispatch-Keeps BrokerEventType.rejected = apply_rejection-Keeps
  dispatch-Keeps BrokerEventType.cancelled = apply_cancellation-Keeps

  record_outcome-Keeps : (reply : Reply) → Keeps U (record_outcome o event reply)
  unfolding record_outcome
  record_outcome-Keeps (was_applied, reason) =
      >>=-Keeps U
        (add_seen-Keeps o.account_id event.order_id
          (record {
            broker_event_id = event.event_id;
            order_id = event.order_id;
            event_type = event.event_type;
            broker_timestamp = event.timestamp;
            outcome = if was_applied then applied else ignored;
            details = reason;
          })
          refl)
        λ _. if-Keeps U was_applied (pure-Keeps U true) (
          >>=-Keeps U
            (append_event-Keeps U (Tied-IsClosed o.account_id event.order_id) o broker_event_ignored
              (some o.status) (some o.status)
              (("broker_event_id", uuid event.event_id)
                ∷ ("event_type", text (broker_event_value event.event_type))
                ∷ ("reason", optional_text reason)
                ∷ []))
            λ _. pure-Keeps U false)

  handle_new_event-Keeps : Keeps U (handle_new_event o event)
  unfolding handle_new_event
  handle_new_event-Keeps = >>=-Keeps U (dispatch-Keeps event.event_type) record_outcome-Keeps

pub process_event-IsReferenced :
    (event : BrokerExecutionEvent) (db : Db)
    → IsKeyed db.accounts db.orders
    → IsReferenced db
    → IsReferenced (process_event event db).1
unfolding process_event handle_event
process_event-IsReferenced event db keyed v =
    elim (Option-cases (find (λ (x : Order). x.id) event.order_id db.orders)) [
      | inl unknown ↦ subst IsReferenced (ground arith) v
      | inr (o, ho) ↦
          let order_id = λ (x : Order). x.id in
          let owner_id = λ (x : Order). x.account_id in
          begin_keeps IsReferenced (handle_event event) db v λ answer db' run.
            elim (Bool-cases (is_some (lookup_event event.event_id db))) [
              | inl seen ↦ subst IsReferenced (ground arith) v
              | inr unseen ↦
                  (handle_new_event-Keeps o event (key-find order_id event.order_id db.orders o ho)
                    db answer db' (ground arith)
                    (
                      v,
                      keyed.owned o.account_id
                          (find-column order_id owner_id event.order_id db.orders o ho),
                      find-is_in order_id event.order_id db.orders o ho,
                    )).0
            ]
    ]
