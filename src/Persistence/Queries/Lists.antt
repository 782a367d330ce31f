-- ===== src/Persistence/Queries/Lists.antt =====
-- What the listing queries list.
use order_management_system.Prelude.{
  ℕ, zero, suc, ◌+◌, ◌≤◌, ◌≡◌, ◌∙◌, refl, sym, ap, Bool, true, false, Option, some, List, [], ◌∷◌,
  ◌++◌, map, inl, inr, arith, ◌==◌, ◌||◌, Bool-cases, nat_eq,
}
use order_management_system.Prelude.Table.{find, filter_where}
use order_management_system.Domain.Enums.{OrderStatus}
use order_management_system.Models.{Db, Order}
use order_management_system.Accounting.{order_id}
use order_management_system.Persistence.Queries.{
  take, drop, newest_first, insert_by, sort_by, selected, list_orders, is_expired, expiry,
  list_expired_day_order_ids,
}

suc-add : (n m : ℕ) → suc (n + m) ≡ suc n + m
suc-add n m = omega arith

module _ {ℓ} {A : Type ℓ} where
  abbrev pub length : List A → ℕ
  length [] = 0
  length (x ∷ xs) = suc (length xs)

  take-all : (n : ℕ) (xs : List A) → length xs ≤ n → take n xs ≡ xs
  take-all zero [] h = refl
  take-all zero (x ∷ xs) h = absurd (ground arith)
  take-all (suc n) [] h = refl
  take-all (suc n) (x ∷ xs) h = ap (λ rest. x ∷ rest) (take-all n xs (ground arith))

  take-nil : (n : ℕ) → take {A = A} n [] ≡ []
  take-nil zero = refl
  take-nil (suc n) = refl

  drop-nil : (n : ℕ) → drop {A = A} n [] ≡ []
  drop-nil zero = refl
  drop-nil (suc n) = refl

  take-drop : (n m : ℕ) (xs : List A) → take n xs ++ take m (drop n xs) ≡ take (n + m) xs
  take-drop zero m xs = grind arith
  take-drop (suc n) m [] = take-nil m ∙ sym (take-nil (suc n + m))
  take-drop (suc n) m (x ∷ xs) =
      ap (λ rest. x ∷ rest) (take-drop n m xs) ∙ ap (λ k. take k (x ∷ xs)) (suc-add n m)

  drop-drop : (n m : ℕ) (xs : List A) → drop m (drop n xs) ≡ drop (n + m) xs
  drop-drop zero m xs = grind arith
  drop-drop (suc n) m [] = drop-nil m ∙ sym (drop-nil (suc n + m))
  drop-drop (suc n) m (x ∷ xs) = drop-drop n m xs ∙ ap (λ k. drop k (x ∷ xs)) (suc-add n m)

  length-take : (n : ℕ) (xs : List A) → length (take n xs) ≤ n
  length-take zero xs = ground arith
  length-take (suc n) [] = ground arith
  length-take (suc n) (x ∷ xs) = ground (arith, length-take n xs)

  module _ (key : A → ℕ) where
    length-insert_by : (x : A) (xs : List A) → length (insert_by key x xs) ≡ suc (length xs)
    length-insert_by x [] = refl
    length-insert_by x (y ∷ ys) = ground (arith, length-insert_by x ys)

    length-sort_by : (xs : List A) → length (sort_by key xs) ≡ length xs
    length-sort_by [] = refl
    length-sort_by (x ∷ xs) = length-insert_by x (sort_by key xs) ∙ ap suc (length-sort_by xs)

-- Whether a number is among those listed.
abbrev pub contains : List ℕ → ℕ → Bool
contains [] k = false
contains (id ∷ ids) k = id == k || contains ids k

abbrev ids_of : List Order → List ℕ
ids_of = map (λ (o : Order). o.id)

contains-insert_by :
    (key : Order → ℕ) (x : Order) (xs : List Order) (k : ℕ)
    → contains (ids_of (insert_by key x xs)) k ≡ (x.id == k || contains (ids_of xs) k)
contains-insert_by key x [] k = refl
contains-insert_by key x (y ∷ ys) k = ground (arith, contains-insert_by key x ys k)

contains-sort_by :
    (key : Order → ℕ) (xs : List Order) (k : ℕ)
    → contains (ids_of (sort_by key xs)) k ≡ contains (ids_of xs) k
contains-sort_by key [] k = refl
contains-sort_by key (x ∷ xs) k =
    contains-insert_by key x (sort_by key xs) k
    ∙ ap (λ b. x.id == k || b) (contains-sort_by key xs k)

contains-filter_where :
    (p : Order → Bool) (id : ℕ) (xs : List Order) (o : Order)
    → find order_id id xs ≡ some o
    → p o ≡ true
    → contains (ids_of (filter_where p xs)) id ≡ true
contains-filter_where p id [] o h holds = absurd (cc h)
contains-filter_where p id (x ∷ xs) o h holds = elim (Bool-cases (x.id == id)) [
  | inl same ↦ ground arith
  | inr other ↦
      let rest = contains-filter_where p id xs o (ground arith) holds in
      elim (Bool-cases (p x)) [ inl kept ↦ ground arith | inr left ↦ ground arith ]
]

-- As long as no more orders have expired than the query lists, it lists them all.
pub list_expired_all :
    (now limit id : ℕ) (db : Db) (o : Order)
    → length (filter_where (is_expired now) db.orders) ≤ limit
    → find order_id id db.orders ≡ some o
    → is_expired now o ≡ true
    → contains (list_expired_day_order_ids now limit db) id ≡ true
unfolding list_expired_day_order_ids
list_expired_all now limit id db o few h expired =
    let orders = filter_where (is_expired now) db.orders in
    ap (λ xs. contains (ids_of xs) id)
      (take-all limit (sort_by expiry orders) (omega (arith, few, length-sort_by expiry orders)))
    ∙ contains-sort_by expiry orders id
    ∙ contains-filter_where (is_expired now) id db.orders o h expired

-- Two pages of orders that follow one another are one longer page.
pub list_orders-pages :
    (account_id : Option ℕ) (status : Option OrderStatus) (open_only : Bool)
    → (first second offset : ℕ) (db : Db)
    → list_orders account_id status open_only first offset db
        ++ list_orders account_id status open_only second (offset + first) db
      ≡ list_orders account_id status open_only (first + second) offset db
unfolding list_orders
list_orders-pages account_id status open_only first second offset db =
    let orders = newest_first (filter_where (selected account_id status open_only) db.orders) in
    ap (λ xs. take first (drop offset orders) ++ take second xs)
      (sym (drop-drop offset first orders))
    ∙ take-drop first second (drop offset orders)

-- A page is never longer than its limit.
list_orders-length :
    (account_id : Option ℕ) (status : Option OrderStatus) (open_only : Bool)
    → (limit offset : ℕ) (db : Db)
    → length (list_orders account_id status open_only limit offset db) ≤ limit
unfolding list_orders
list_orders-length account_id status open_only limit offset db =
    length-take limit
      (drop offset (newest_first (filter_where (selected account_id status open_only) db.orders)))
