-- ===== src/Journal/Changes.antt =====
-- A block that writes one order keeps the audit trail and the fills in agreement with the orders.
use order_management_system.Prelude.{
  ℕ, ◌+◌, ◌≡◌, refl, sym, ap, ◌∙◌, subst, false, some, List, ◌++◌, inl, inr, arith, ◌==◌, ==_iff,
  nat_eq, if◌then◌else◌, Bool-cases,
}
use order_management_system.Prelude.Table.{
  find, replace, replace-replace, sum_of-append, find-replace_ne, find-replace_self,
}
use order_management_system.Models.{Db, Order, OrderEvent, Fill}
use order_management_system.Accounting.{order_id}
use order_management_system.Journal.{
  IsJournal, IsTrail, IsTrail-append, Walk, Walk-append, append-nil, append_assoc, filled_by,
  filter-append, history, history-Walk, history-other,
}

-- A block has written one order anew and added to its trail and its fills.
pub record Journals (o r : Order) (es : List OrderEvent) (fs : List Fill) (db db' : Db)
    : Type 0 where
  pub orders : db'.orders ≡ replace order_id r db.orders
  pub events : db'.order_events ≡ db.order_events ++ es
  pub fills : db'.fills ≡ db.fills ++ fs
  pub same_id : r.id ≡ o.id
  pub walk : Walk o.id o.status es r.status
  pub filled : r.filled_quantity ≡ o.filled_quantity + filled_by o.id fs
  pub own : (k : ℕ) → (o.id == k) ≡ false → filled_by k fs ≡ 0

pub Journals-trans :
    (a b c : Order) (es es' : List OrderEvent) (fs fs' : List Fill) {db mid db' : Db}
    → Journals a b es fs db mid
    → Journals b c es' fs' mid db'
    → Journals a c (es ++ es') (fs ++ fs') db db'
Journals-trans a b c es es' fs fs' {db} {mid} {db'} v w = record {
  orders = rw (w.orders, v.orders) (replace-replace order_id b c db.orders (sym w.same_id));
  events = rw (w.events, v.events) (append_assoc db.order_events es es');
  fills = rw (w.fills, v.fills) (append_assoc db.fills fs fs');
  same_id = w.same_id ∙ v.same_id;
  walk =
      Walk-append a.id a.status b.status c.status es es' v.walk
        (subst (λ k. Walk k b.status es' c.status) v.same_id w.walk);
  filled = omega (
    arith,
    v.filled,
    w.filled,
    sum_of-append (λ (f : Fill). if f.order_id == a.id then f.quantity else 0) fs fs',
    ap (λ k. filled_by k fs') v.same_id,
  );
  own = λ k h. omega (
    arith,
    v.own k h,
    w.own k (subst (λ x. (x == k) ≡ false) (sym v.same_id) h),
    sum_of-append (λ (f : Fill). if f.order_id == k then f.quantity else 0) fs fs',
  );
}

module _ (o r : Order) (es : List OrderEvent) (fs : List Fill) (db db' : Db)
    (j : Journals o r es fs db db') where
  history-own : history o.id db'.order_events ≡ history o.id db.order_events ++ es
  history-own =
      rw
        (
          j.events,
          filter-append (λ (e : OrderEvent). e.order_id == o.id) db.order_events es,
          history-Walk o.id o.status r.status es j.walk,
        )
        refl

  history-same :
      (k : ℕ) → (o.id == k) ≡ false → history k db'.order_events ≡ history k db.order_events
  history-same k h =
      rw
        (
          j.events,
          filter-append (λ (e : OrderEvent). e.order_id == k) db.order_events es,
          history-other o.id k o.status r.status es j.walk h,
        )
        (append-nil _)

  filled-journal : (k : ℕ) → filled_by k db'.fills ≡ filled_by k db.fills + filled_by k fs
  filled-journal k =
      rw j.fills
        (sum_of-append (λ (f : Fill). if f.order_id == k then f.quantity else 0) db.fills fs)

  module _ (ho : find order_id o.id db.orders ≡ some o) where
    found_self : find order_id o.id db'.orders ≡ some r
    found_self =
        subst (λ k. find order_id k db'.orders ≡ some r) j.same_id
          (rw j.orders (
            find-replace_self order_id r db.orders o
              (subst (λ k. find order_id k db.orders ≡ some o) (sym j.same_id) ho)))

    found-other :
        (k : ℕ) → (o.id == k) ≡ false → find order_id k db'.orders ≡ find order_id k db.orders
    found-other k h =
        rw j.orders
          (find-replace_ne order_id k r db.orders (subst (λ x. (x == k) ≡ false) (sym j.same_id) h))

    row_self : (k : ℕ) (x : Order) → o.id ≡ k → find order_id k db'.orders ≡ some x → r ≡ x
    row_self k x at h = cc (subst (λ i. find order_id i db'.orders ≡ some r) at found_self)

    -- Such a block keeps the tables in agreement.
    pub Journals-IsJournal : IsJournal db → IsJournal db'
    Journals-IsJournal v = record {
      trail = λ k x h. elim (Bool-cases (o.id == k)) [
        | inl same ↦
            let at : o.id ≡ k = (==_iff o.id k).0 same in
            subst (λ i. IsTrail i x.status (history i db'.order_events)) at
              (subst (λ (y : Order). IsTrail o.id y.status (history o.id db'.order_events))
                (row_self k x at h)
                (rw history-own
                  (IsTrail-append o.id o.status r.status _ es (v.trail o.id o ho) j.walk)))
        | inr other ↦ rw (history-same k other) (v.trail k x (sym (found-other k other) ∙ h))
      ];
      ledger = λ k x h. elim (Bool-cases (o.id == k)) [
        | inl same ↦
            let at : o.id ≡ k = (==_iff o.id k).0 same in
            subst (λ i. filled_by i db'.fills ≡ x.filled_quantity) at
              (omega (
                arith,
                ap (λ (y : Order). y.filled_quantity) (row_self k x at h),
                filled-journal o.id,
                j.filled,
                v.ledger o.id o ho,
              ))
        | inr other ↦
            omega
              (arith, filled-journal k, j.own k other, v.ledger k x (sym (found-other k other) ∙ h))
      ];
      unknown = λ k h. elim (Bool-cases (o.id == k)) [
        | inl same ↦
            let at : o.id ≡ k = (==_iff o.id k).0 same in
            absurd (cc (subst (λ i. find order_id i db'.orders ≡ some r) at found_self))
        | inr other ↦
            let before = v.unknown k (sym (found-other k other) ∙ h) in
            (
              history-same k other ∙ before.0,
              omega (arith, filled-journal k, j.own k other, before.1),
            )
      ];
    }
