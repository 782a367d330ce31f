-- ===== src/Journal.antt =====
-- The two append-only tables beside the orders, `order_events` and `fills`, against the orders: the
-- audit trail of an order walks along allowed transitions to its status, and its fills add up to its
-- filled quantity.
pub mod Changes
pub mod Places
use order_management_system.Prelude.{
  ℕ, ◌+◌, ◌≡◌, ◌⊎◌, refl, sym, ap, ◌∙◌, subst, Bool, true, false, Option, none, some, List, [], ◌∷◌,
  ◌++◌, inl, inr, arith, ◌==◌, ==_iff, nat_eq, if◌then◌else◌, Bool-cases,
}
use order_management_system.Prelude.Table.{
  find, filter_where, replace, replace-replace, sum_of, sum_of-append, find-replace_ne,
  find-replace_self, find_where-append,
}
use order_management_system.Domain.Enums.{OrderStatus, new, status_in}
use order_management_system.Domain.StateMachine.{allowed_transitions}
use order_management_system.Models.{Db, Order, OrderEvent, Fill}
use order_management_system.Accounting.{order_id}

-- The audit trail of an order.
abbrev pub history : ℕ → List OrderEvent → List OrderEvent
history id = filter_where (λ (e : OrderEvent). e.order_id == id)

-- What the fills of an order add up to.
abbrev pub filled_by : ℕ → List Fill → ℕ
filled_by id = sum_of (λ (f : Fill). if f.order_id == id then f.quantity else 0)

-- An entry of an order's trail in a status: where it stands then, if the entry fits.
abbrev pub Enters : OrderStatus → Option OrderStatus → Option OrderStatus → Type 0
Enters s previous none = ⊥
Enters s previous (some u) =
    (previous ≡ some s) × ((u ≡ s) ⊎ (status_in u (allowed_transitions s) ≡ true))

abbrev pub stands : OrderStatus → Option OrderStatus → OrderStatus
stands s none = s
stands s (some u) = u

-- From one status to another along the entries of a trail, all of one order.
abbrev pub Walk : ℕ → OrderStatus → List OrderEvent → OrderStatus → Type 0
Walk id s [] t = s ≡ t
Walk id s (e ∷ es) t =
    (e.order_id ≡ id)
    × Enters s e.previous_status e.new_status
    × Walk id (stands s e.new_status) es t

pub Walk-append :
    (id : ℕ) (s t u : OrderStatus) (es es' : List OrderEvent)
    → Walk id s es t
    → Walk id t es' u
    → Walk id s (es ++ es') u
Walk-append id s t u [] es' w v = subst (λ x. Walk id x es' u) (sym w) v
Walk-append id s t u (e ∷ es) es' (own, enters, w) v =
    (own, enters, Walk-append id (stands s e.new_status) t u es es' w v)

pub filter-append {ℓ} :
    {A : Type ℓ} (p : A → Bool) (xs ys : List A)
    → filter_where p (xs ++ ys) ≡ filter_where p xs ++ filter_where p ys
filter-append p [] ys = refl
filter-append p (x ∷ xs) ys = ground (arith, filter-append p xs ys)

-- A walk is its own order's history, and not in that of others.
history-Walk :
    (id : ℕ) (s t : OrderStatus) (es : List OrderEvent) → Walk id s es t → history id es ≡ es
history-Walk id s t [] w = refl
history-Walk id s t (e ∷ es) (own, enters, w) =
    ground (arith, history-Walk id (stands s e.new_status) t es w)

history-other :
    (id k : ℕ) (s t : OrderStatus) (es : List OrderEvent)
    → Walk id s es t
    → (id == k) ≡ false
    → history k es ≡ []
history-other id k s t [] w h = refl
history-other id k s t (e ∷ es) (own, enters, w) h =
    ground (arith, history-other id k (stands s e.new_status) t es w h)

pub append_assoc {ℓ} : {A : Type ℓ} (xs ys zs : List A) → (xs ++ ys) ++ zs ≡ xs ++ (ys ++ zs)
append_assoc [] ys zs = refl
append_assoc (x ∷ xs) ys zs = ap (λ t. x ∷ t) (append_assoc xs ys zs)

-- What a trail looks like: it starts at the creation of the order.
pub record IsTrail (id : ℕ) (status : OrderStatus) (es : List OrderEvent) : Type 0 where
  pub first : OrderEvent
  pub rest : List OrderEvent
  pub whole : es ≡ first ∷ rest
  pub created : (first.previous_status ≡ none) × (first.new_status ≡ some new)
  pub walk : Walk id new rest status

-- The two tables agree with the orders.
pub record IsJournal (db : Db) : Type 0 where
  pub trail :
      (id : ℕ) (o : Order)
      → find order_id id db.orders ≡ some o
      → IsTrail id o.status (history id db.order_events)
  pub ledger :
      (id : ℕ) (o : Order)
      → find order_id id db.orders ≡ some o
      → filled_by id db.fills ≡ o.filled_quantity
  pub unknown :
      (id : ℕ)
      → find order_id id db.orders ≡ none
      → (history id db.order_events ≡ []) × (filled_by id db.fills ≡ 0)

IsTrail-append :
    (id : ℕ) (s t : OrderStatus) (es es' : List OrderEvent)
    → IsTrail id s es
    → Walk id s es' t
    → IsTrail id t (es ++ es')
IsTrail-append id s t es es' h w = record {
  first = h.first;
  rest = h.rest ++ es';
  whole = rw h.whole refl;
  created = h.created;
  walk = Walk-append id new s t h.rest es' h.walk w;
}

pub append-nil {ℓ} : {A : Type ℓ} (xs : List A) → xs ++ [] ≡ xs
append-nil [] = refl
append-nil (x ∷ xs) = ap (λ t. x ∷ t) (append-nil xs)

pub IsJournal-same :
    (db db' : Db)
    → db'.orders ≡ db.orders
    → db'.order_events ≡ db.order_events
    → db'.fills ≡ db.fills
    → IsJournal db
    → IsJournal db'
IsJournal-same db db' so se sf v = record {
  trail = λ k x h. rw se (v.trail k x (ap (λ t. find order_id k t) (sym so) ∙ h));
  ledger = λ k x h. rw sf (v.ledger k x (ap (λ t. find order_id k t) (sym so) ∙ h));
  unknown = λ k h. rw (se, sf) (v.unknown k (ap (λ t. find order_id k t) (sym so) ∙ h));
}
