-- ===== src/Prelude/Distinct.antt =====
-- Columns without repetitions: what a unique constraint asks of a table.
use mathlib.Core.Path.{◌≡◌, refl, ap, ◌∙◌}
use mathlib.Core.Bool.{Bool, true, false, ◌||◌}
use mathlib.Core.Logic.{inl, inr}
use mathlib.Core.Option.{none, some}
use mathlib.Core.List.{List, [], ◌∷◌, ◌++◌, map}
use native.Mathlib.Omega.{arith}
use order_management_system.Prelude.Tests.{Eq, Bool-cases}
use order_management_system.Prelude.Table.{find, replace}

module _ {κ} {K : Type κ} ⦃e : Eq K⦄ where
  abbrev pub is_in : K → List K → Bool
  is_in k [] = false
  is_in k (x ∷ xs) = e.beq x k || is_in k xs

  unfoldable pub Distinct : List K → Type 0
  Distinct [] = Unit
  Distinct (x ∷ xs) = (is_in x xs ≡ false) × Distinct xs

  pub is_in-append :
      (k : K) (xs : List K) (x : K) → is_in k (xs ++ x ∷ []) ≡ (is_in k xs || e.beq x k)
  is_in-append k [] x = ground arith
  is_in-append k (y ∷ xs) x = ground (arith, is_in-append k xs x)

  pub Distinct-append :
      (xs : List K) (x : K) → Distinct xs → is_in x xs ≡ false → Distinct (xs ++ x ∷ [])
  unfolding Distinct
  Distinct-append [] x d h = (refl, tt)
  Distinct-append (y ∷ xs) x d h = (
    ground (arith, d.0, is_in-append y xs x, e.beq_iff x y, e.beq_iff y x),
    Distinct-append xs x d.1 (ground arith),
  )

module _ {ℓ κ} {A : Type ℓ} {K : Type κ} (key : A → K) ⦃e : Eq K⦄ where
  pub is_in-find : (k : K) (xs : List A) → find key k xs ≡ none → is_in k (map key xs) ≡ false
  is_in-find k [] h = refl
  is_in-find k (x ∷ xs) h = ground (arith, is_in-find k xs)

  pub find-is_in :
      (k : K) (xs : List A) (x : A) → find key k xs ≡ some x → is_in k (map key xs) ≡ true
  find-is_in k [] x h = cc
  find-is_in k (y ∷ xs) x h = ground (arith, find-is_in k xs x)

-- A row that is found is in every column.
pub find-column {ℓ κ μ} :
    {A : Type ℓ} {K : Type κ} {C : Type μ} (key : A → K) ⦃e : Eq K⦄ ⦃f : Eq C⦄ (column : A → C)
    → (k : K) (xs : List A) (x : A) → find key k xs ≡ some x
    → is_in (column x) (map column xs) ≡ true
find-column key column k [] x h = cc
find-column key ⦃e⦄ ⦃f⦄ column k (y ∷ xs) x h =
    ground (arith, f.beq_iff (column x) (column x), find-column key column k xs x)

-- A write under a key that is not there changes nothing.
pub replace-missing {ℓ κ} :
    {A : Type ℓ} {K : Type κ} (key : A → K) ⦃e : Eq K⦄ (new : A) (xs : List A)
    → find key (key new) xs ≡ none
    → replace key new xs ≡ xs
replace-missing key new [] h = refl
replace-missing key new (x ∷ xs) h = ground (arith, replace-missing key new xs)

-- A row that is written anew under its old keys leaves their columns alone.
pub map-replace {ℓ κ μ} :
    {A : Type ℓ} {K : Type κ} {C : Type μ} (key : A → K) ⦃e : Eq K⦄ (column : A → C)
    → (new : A) (xs : List A) (old : A) → find key (key new) xs ≡ some old
    → column new ≡ column old
    → map column (replace key new xs) ≡ map column xs
map-replace key column new [] old h same = refl
map-replace key ⦃e⦄ column new (x ∷ xs) old h same = elim (Bool-cases (e.beq (key x) (key new))) [
  | inl at ↦
      let is_x : old ≡ x = ground arith in
      rw at (ap (λ c. c ∷ map column xs) (same ∙ ap column is_x))
  | inr past ↦
      rw past (ap (λ rest. column x ∷ rest) (map-replace key column new xs old (ground arith) same))
]

-- A row that is found under one key is found under every other key without repetitions.
pub find_unique {ℓ κ μ} :
    {A : Type ℓ} {K : Type κ} {C : Type μ} (key : A → K) ⦃e : Eq K⦄ ⦃f : Eq C⦄ (column : A → C)
    → (k : K) (xs : List A) (x : A) → Distinct (map column xs)
    → find key k xs ≡ some x
    → find column (column x) xs ≡ some x
unfolding Distinct
find_unique key column k [] x d h = cc
find_unique key ⦃e⦄ ⦃f⦄ column k (y ∷ xs) x d h = ground (
  arith,
  d.0,
  f.beq_iff (column x) (column x),
  f.beq_iff (column y) (column x),
  find-column key column k xs x,
  find_unique key column k xs x d.1,
)
