-- ===== src/Journal/Places.antt =====
-- A block that adds an order keeps the audit trail and the fills in agreement with the orders.
use order_management_system.Prelude.{
  ℕ, ◌≡◌, refl, sym, ap, ◌∙◌, subst, false, none, some, List, [], ◌∷◌, ◌++◌, inl, inr, arith, ◌==◌,
  ==_iff, nat_eq, if◌then◌else◌, Bool-cases,
}
use order_management_system.Prelude.Table.{find, find_where-append}
use order_management_system.Domain.Enums.{new}
use order_management_system.Models.{Db, Order, OrderEvent}
use order_management_system.Accounting.{order_id}
use order_management_system.Journal.{
  IsJournal, IsTrail, Walk, append-nil, filled_by, filter-append, history, history-Walk,
  history-other,
}

-- A block has added an order, with its trail so far and no fills.
pub record Places (r : Order) (first : OrderEvent) (es : List OrderEvent) (db db' : Db)
    : Type 0 where
  pub orders : db'.orders ≡ db.orders ++ r ∷ []
  pub events : db'.order_events ≡ db.order_events ++ first ∷ es
  pub fills : db'.fills ≡ db.fills
  pub fresh : find order_id r.id db.orders ≡ none
  pub of_order : first.order_id ≡ r.id
  pub created : (first.previous_status ≡ none) × (first.new_status ≡ some new)
  pub walk : Walk r.id new es r.status
  pub unfilled : r.filled_quantity ≡ 0

module _ (r : Order) (first : OrderEvent) (es : List OrderEvent) (db db' : Db)
    (p : Places r first es db db') where
  found-placed :
      (k : ℕ)
      → find order_id k db'.orders ≡ elim (find order_id k db.orders) [
        | none ↦ if r.id == k then some r else none
        | some y ↦ some y
      ]
  found-placed k = rw p.orders (find_where-append (λ (x : Order). x.id == k) db.orders r)

  history-placed_self : history r.id db'.order_events ≡ history r.id db.order_events ++ first ∷ es
  history-placed_self =
      rw
        (
          p.events,
          filter-append (λ (e : OrderEvent). e.order_id == r.id) db.order_events (first ∷ es),
        )
        (ap (λ t. history r.id db.order_events ++ t)
          (ground (arith, p.of_order, history-Walk r.id new r.status es p.walk)))

  history-placed-other :
      (k : ℕ) → (r.id == k) ≡ false → history k db'.order_events ≡ history k db.order_events
  history-placed-other k other =
      rw
        (p.events, filter-append (λ (e : OrderEvent). e.order_id == k) db.order_events (first ∷ es))
        (ap (λ t. history k db.order_events ++ t)
            (ground (arith, p.of_order, history-other r.id k new r.status es p.walk other))
          ∙ append-nil _)

  found-placed-other :
      (k : ℕ) → (r.id == k) ≡ false → find order_id k db'.orders ≡ find order_id k db.orders
  found-placed-other k other = ground (arith, found-placed k)

  found-placed_self : find order_id r.id db'.orders ≡ some r
  found-placed_self = ground (arith, found-placed r.id, p.fresh)

  row-placed : (k : ℕ) (x : Order) → r.id ≡ k → find order_id k db'.orders ≡ some x → r ≡ x
  row-placed k x at h = cc (subst (λ i. find order_id i db'.orders ≡ some r) at found-placed_self)

  -- Such a block keeps the tables in agreement.
  pub Places-IsJournal : IsJournal db → IsJournal db'
  Places-IsJournal v = record {
    trail = λ k x h. elim (Bool-cases (r.id == k)) [
      | inl same ↦
          let at : r.id ≡ k = (==_iff r.id k).0 same in
          subst (λ i. IsTrail i x.status (history i db'.order_events)) at
            (subst (λ (y : Order). IsTrail r.id y.status (history r.id db'.order_events))
              (row-placed k x at h)
              (record {
                first = first;
                rest = es;
                whole = rw (history-placed_self, (v.unknown r.id p.fresh).0) refl;
                created = p.created;
                walk = p.walk;
              }))
      | inr other ↦
          rw (history-placed-other k other) (v.trail k x (sym (found-placed-other k other) ∙ h))
    ];
    ledger = λ k x h. elim (Bool-cases (r.id == k)) [
      | inl same ↦
          let at : r.id ≡ k = (==_iff r.id k).0 same in
          subst (λ i. filled_by i db'.fills ≡ x.filled_quantity) at
            (rw p.fills (
              (v.unknown r.id p.fresh).1
              ∙ sym p.unfilled
              ∙ ap (λ (y : Order). y.filled_quantity) (row-placed k x at h)))
      | inr other ↦ rw p.fills (v.ledger k x (sym (found-placed-other k other) ∙ h))
    ];
    unknown = λ k h. elim (Bool-cases (r.id == k)) [
      | inl same ↦
          let at : r.id ≡ k = (==_iff r.id k).0 same in
          absurd (cc (subst (λ i. find order_id i db'.orders ≡ some r) at found-placed_self))
      | inr other ↦
          let before = v.unknown k (sym (found-placed-other k other) ∙ h) in
          (history-placed-other k other ∙ before.0, rw p.fills before.1)
    ];
  }
