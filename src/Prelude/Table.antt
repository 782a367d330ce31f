-- ===== src/Prelude/Table.antt =====
-- A table of rows with a key: the first row with a key, its replacement, and sums over all rows.
use Prim.Native.Nat.{ℕ, ◌+◌, ◌≤◌}
use mathlib.Core.Path.{◌≡◌, refl, sym, subst}
use mathlib.Core.Bool.{Bool, true, false}
use mathlib.Core.Logic.{inl, inr, ◌⊎◌}
use mathlib.Core.Option.{Option, none, some}
use mathlib.Core.List.{List, [], ◌∷◌, ◌++◌}
use native.Mathlib.Omega.{arith}
use order_management_system.Prelude.Tests.{Eq, Bool-cases, if◌then◌else◌}

module _ {ℓ} {A : Type ℓ} where
  -- The first row that passes a test.
  abbrev pub find_where : (A → Bool) → List A → Option A
  find_where p [] = none
  find_where p (x ∷ xs) = if p x then some x else find_where p xs

  abbrev pub filter_where : (A → Bool) → List A → List A
  filter_where p [] = []
  filter_where p (x ∷ xs) = let rest = filter_where p xs in if p x then x ∷ rest else rest

  abbrev pub is_some : Option A → Bool
  is_some none = false
  is_some (some a) = true

  abbrev pub sum_of : (A → ℕ) → List A → ℕ
  sum_of f [] = 0
  sum_of f (x ∷ xs) = f x + sum_of f xs

  pub sum_of-append : (f : A → ℕ) (xs ys : List A) → sum_of f (xs ++ ys) ≡ sum_of f xs + sum_of f ys
  sum_of-append f [] ys = omega arith
  sum_of-append f (x ∷ xs) ys = omega (arith, sum_of-append f xs ys)

  pub find_where_holds :
      (p : A → Bool) (xs : List A) (x : A) → find_where p xs ≡ some x → p x ≡ true
  find_where_holds p [] x h = cc
  find_where_holds p (y ∷ xs) x h = ground (arith, find_where_holds p xs x)

  -- A row that is appended is found where no earlier row is.
  pub find_where-append :
      (p : A → Bool) (xs : List A) (x : A)
      → find_where p (xs ++ x ∷ [])
        ≡ elim (find_where p xs) [ none ↦ if p x then some x else none | some y ↦ some y ]
  find_where-append p [] x = ground arith
  find_where-append p (y ∷ xs) x = ground (arith, find_where-append p xs x)

module _ {ℓ κ} {A : Type ℓ} {K : Type κ} (key : A → K) ⦃e : Eq K⦄ where
  abbrev pub find : K → List A → Option A
  find k = find_where (λ x. e.beq (key x) k)

  -- The first row with the key of `new` becomes `new`.
  abbrev pub replace : A → List A → List A
  replace new [] = []
  replace new (x ∷ xs) = if e.beq (key x) (key new) then new ∷ xs else x ∷ replace new xs

  pub key-find : (k : K) (xs : List A) (x : A) → find k xs ≡ some x → key x ≡ k
  key-find k xs x h = (e.beq_iff (key x) k).0 (find_where_holds _ xs x h)

  pub find-replace_self :
      (new : A) (xs : List A) (x : A)
      → find (key new) xs ≡ some x
      → find (key new) (replace new xs) ≡ some new
  find-replace_self new [] x h = cc
  find-replace_self new (y ∷ xs) x h =
      ground (arith, find-replace_self new xs x, (e.beq_iff (key new) (key new)).1 refl)

  pub find-replace_ne :
      (k : K) (new : A) (xs : List A)
      → e.beq (key new) k ≡ false
      → find k (replace new xs) ≡ find k xs
  find-replace_ne k new [] h = refl
  find-replace_ne k new (y ∷ xs) h = ground (
    arith,
    find-replace_ne k new xs h,
    e.beq_iff (key y) (key new),
    e.beq_iff (key y) k,
    e.beq_iff (key new) k,
  )

  -- A sum changes by what the replaced row contributed.
  pub sum_of-replace :
      (f : A → ℕ) (new : A) (xs : List A) (x : A)
      → find (key new) xs ≡ some x
      → sum_of f (replace new xs) + f x ≡ sum_of f xs + f new
  sum_of-replace f new [] x h = cc
  sum_of-replace f new (y ∷ xs) x h = ground (arith, sum_of-replace f new xs x)

  -- A lookup after a replacement of a row that is there.
  pub find-replace :
      (k : K) (new : A) (xs : List A) (x : A)
      → find (key new) xs ≡ some x
      → find k (replace new xs) ≡ (if e.beq (key new) k then some new else find k xs)
  find-replace k new xs x h = elim (Bool-cases (e.beq (key new) k)) [
    | inl same ↦ rw (same, ← (e.beq_iff (key new) k).0 same) (find-replace_self new xs x h)
    | inr other ↦ rw other (find-replace_ne k new xs other)
  ]

  pub replace-replace :
      (a b : A) (xs : List A) → key a ≡ key b → replace b (replace a xs) ≡ replace b xs
  replace-replace a b [] h = refl
  replace-replace a b (y ∷ xs) h = ground (
    arith,
    replace-replace a b xs h,
    e.beq_iff (key y) (key a),
    e.beq_iff (key y) (key b),
    e.beq_iff (key a) (key b),
  )

  pub le-sum_of : (f : A → ℕ) (k : K) (xs : List A) (x : A) → find k xs ≡ some x → f x ≤ sum_of f xs
  le-sum_of f k [] x h = cc
  le-sum_of f k (y ∷ xs) x h = ground (arith, le-sum_of f k xs x)

  -- A row that is found stands under its own key.
  pub find-key : (k : K) (xs : List A) (x : A) → find k xs ≡ some x → find (key x) xs ≡ some x
  find-key k xs x h = subst (λ j. find j xs ≡ some x) (sym (key-find k xs x h)) h

  -- A predicate of every row that can be found.
  abbrev pub Every {μ} : (A → Type μ) → List A → Type (ℓ ⊔ κ ⊔ μ)
  Every P xs = (k : K) (x : A) → find k xs ≡ some x → P x

  find-replace_cases :
      (k : K) (new : A) (xs : List A) (x y : A)
      → find (key new) xs ≡ some y
      → find k (replace new xs) ≡ some x
      → (x ≡ new) ⊎ (find k xs ≡ some x)
  find-replace_cases k new xs x y h found = elim (Bool-cases (e.beq (key new) k)) [
    | inl same ↦ inl (cc (find-replace k new xs y h, same, found))
    | inr other ↦ inr (cc (find-replace k new xs y h, other, found))
  ]

  pub Every-replace {μ} :
      (P : A → Type μ) (new : A) (xs : List A) (y : A)
      → find (key new) xs ≡ some y
      → Every P xs
      → P new
      → Every P (replace new xs)
  Every-replace P new xs y h all pn k x found = elim (find-replace_cases k new xs x y h found) [
    | inl e ↦ subst P (sym e) pn
    | inr old ↦ all k x old
  ]

  find-append_cases :
      (k : K) (new : A) (xs : List A) (x : A)
      → find k (xs ++ new ∷ []) ≡ some x
      → (x ≡ new) ⊎ (find k xs ≡ some x)
  find-append_cases k new [] x h = ground arith
  find-append_cases k new (y ∷ xs) x h = ground (arith, find-append_cases k new xs x)

  pub Every-append {μ} :
      (P : A → Type μ) (new : A) (xs : List A) → Every P xs → P new → Every P (xs ++ new ∷ [])
  Every-append P new xs all pn k x found = elim (find-append_cases k new xs x found) [
    | inl e ↦ subst P (sym e) pn
    | inr old ↦ all k x old
  ]

  -- A row that is appended under a new key is the one found under it.
  pub find-append_self :
      (new : A) (xs : List A)
      → find (key new) xs ≡ none
      → find (key new) (xs ++ new ∷ []) ≡ some new
  find-append_self new [] h = rw ((e.beq_iff (key new) (key new)).1 refl)
  find-append_self new (y ∷ xs) h = ground (arith, find-append_self new xs)

  -- Writing a row back as it stands changes nothing.
  pub replace_self : (xs : List A) (x : A) → find (key x) xs ≡ some x → replace x xs ≡ xs
  replace_self [] x h = refl
  replace_self (y ∷ xs) x h = ground (arith, replace_self xs x)

  -- A row that is appended under a new key, and then replaced.
  pub replace-append :
      (new x : A) (xs : List A)
      → find (key new) xs ≡ none
      → key x ≡ key new
      → replace new (xs ++ x ∷ []) ≡ xs ++ new ∷ []
  replace-append new x [] h same = rw ((e.beq_iff (key x) (key new)).1 same)
  replace-append new x (y ∷ xs) h same = ground (arith, replace-append new x xs)
