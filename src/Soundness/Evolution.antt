-- ===== src/Soundness/Evolution.antt =====
-- How the stored orders develop: no order disappears, its terms stay, its status never goes back, and
-- a terminal order stays as it is.
use order_management_system.Prelude.{
  ℕ, ◌≡◌, refl, sym, subst, ◌∙◌, true, some, [], ◌∷◌, ◌++◌, arith, nat_eq, ◌==◌, ==_iff, Bool-cases,
  inl, inr,
}
use order_management_system.Prelude.Table.{
  find, find-replace_self, find-replace_ne, find_where-append,
}
use order_management_system.Domain.Enums.{status_in}
use order_management_system.Domain.StateMachine.{terminal_order_statuses, open_order_statuses}
use order_management_system.Models.{Db, Order}
use order_management_system.Accounting.{order_id}
use order_management_system.Soundness.{
  SameTerms, SameTerms-trans, Progress, Progress-trans, Rewrites, Effect, untouched, rewritten,
  Touches, no_order, one_order,
}

-- The row of an order at a later time.
pub record Later (o r : Order) : Type 0 where
  pub terms : SameTerms o r
  pub progress : Progress o r
  pub frozen : status_in o.status terminal_order_statuses ≡ true → r ≡ o

pub Later-refl : (o : Order) → Later o o
Later-refl o = record { terms = ground arith; progress = omega arith; frozen = λ _. refl }

pub Later-trans : {a b c : Order} → Later a b → Later b c → Later a c
Later-trans {a} {b} {c} p q = record {
  terms = SameTerms-trans p.terms q.terms;
  progress = Progress-trans p.progress q.progress;
  frozen = λ done.
      let same = p.frozen done in
      q.frozen (subst (λ x. status_in x.status terminal_order_statuses ≡ true) (sym same) done)
      ∙ same;
}

-- Every stored order is still there, in a later form.
abbrev pub Evolves : Db → Db → Type 0
Evolves db db' =
    (id : ℕ) (o : Order)
    → find order_id id db.orders ≡ some o
    → (r : Order) × (find order_id id db'.orders ≡ some r) × Later o r

pub Evolves-same : (db db' : Db) → db'.orders ≡ db.orders → Evolves db db'
Evolves-same db db' same id o h = (o, rw same h, Later-refl o)

pub Evolves-trans : (a b c : Db) → Evolves a b → Evolves b c → Evolves a c
Evolves-trans a b c first second id o h =
    let (r, hr, later) = first id o h in
    let (s, hs, later') = second id r hr in (s, hs, Later-trans later later')

pub Evolves-append :
    (db db' : Db) (new : Order) → db'.orders ≡ db.orders ++ new ∷ [] → Evolves db db'
Evolves-append db db' new added id o h = (
  o,
  rw added (ground (arith, find_where-append (λ (x : Order). x.id == id) db.orders new)),
  Later-refl o,
)

Rewrites-Later :
    (o r : Order) {db db' : Db}
    → Rewrites o r db db'
    → status_in o.status open_order_statuses ≡ true
    → Later o r
Rewrites-Later o r w live = record {
  terms = w.terms;
  progress = w.progress;
  frozen = λ done. absurd (ground arith);
}

Effect-Evolves :
    (o : Order) {db db' : Db}
    → Effect o db db'
    → find order_id o.id db.orders ≡ some o
    → Evolves db db'
Effect-Evolves o {db} {db'} (untouched same) ho id x h = Evolves-same db db' same id x h
Effect-Evolves o {db} {db'} (rewritten r w keeps live) ho id x h = elim (Bool-cases (r.id == id)) [
  | inl same ↦
      let at_id : r.id ≡ id = (==_iff r.id id).0 same in
      let found : find order_id r.id db.orders ≡ some o =
        subst (λ k. find order_id k db.orders ≡ some o) (sym w.terms.id) ho in
      let is_o : o ≡ x = cc (subst (λ k. find order_id k db.orders ≡ some o) at_id found) in
      (
        r,
        subst (λ k. find order_id k db'.orders ≡ some r) at_id
            (rw w.orders (find-replace_self order_id r db.orders o found)),
        subst (λ y. Later y r) is_o (Rewrites-Later o r w live),
      )
  | inr other ↦ (x, rw (w.orders, find-replace_ne order_id id r db.orders other) h, Later-refl x)
]

pub Touches-Evolves : {db db' : Db} → Touches db db' → Evolves db db'
Touches-Evolves {db} {db'} (no_order same) = Evolves-same db db' same
Touches-Evolves (one_order o ho e) = Effect-Evolves o e ho
