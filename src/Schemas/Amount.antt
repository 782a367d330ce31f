-- ===== src/Schemas/Amount.antt =====
-- `serialize_decimal` of app/schemas/order.py: `format(value, ".8f")` of a number of units of 10^-8, as a
-- list of character codes. A column of 24 digits has sixteen before the point.
use order_management_system.Prelude.{
  ℕ, zero, suc, ◌+◌, ◌-◌, ◌*◌, ◌/◌, ◌%◌, ◌<◌, ◌≡◌, ◌∙◌, refl, ap, Bool, true, false, Option, none,
  some, List, [], ◌∷◌, leb, ◌==◌, ◌&&◌, if◌then◌else◌, inl, inr, arith, Bool-cases,
}

abbrev pub pow10 : ℕ → ℕ
pow10 zero = 1
pow10 (suc k) = 10 * pow10 k

-- The last `k` digits of a number, before a text.
abbrev places : ℕ → ℕ → List ℕ → List ℕ
places zero n out = out
places (suc k) n out = places k (n / 10) ((48 + n % 10) ∷ out)

-- Its digits without leading zeros, `k` at most.
unfoldable pub significant : ℕ → ℕ → List ℕ → List ℕ
significant zero n out = out
significant (suc k) n out =
    let rest = significant k (n / 10) ((48 + n % 10) ∷ out) in if n == 0 then out else rest

abbrev pub point : ℕ
point = 46

abbrev fraction : ℕ → List ℕ
fraction units = point ∷ places 8 (units % 100000000) []

unfoldable pub serialize_amount : ℕ → List ℕ
serialize_amount units =
    let whole = units / 100000000 in
    if whole == 0 then 48 ∷ fraction units else significant 16 whole (fraction units)

-- With `None` for a price that is not there.
unfoldable pub serialize_decimal : Option ℕ → Option (List ℕ)
serialize_decimal none = none
serialize_decimal (some value) = some (serialize_amount value)

-- A reader of decimal texts with eight places.
abbrev pub is_digit : ℕ → Bool
is_digit c = leb 48 c && leb c 57

unfoldable pub read_places : ℕ → List ℕ → ℕ → Option ℕ
read_places zero [] n = some n
read_places zero (c ∷ s) n = none
read_places (suc k) [] n = none
read_places (suc k) (c ∷ s) n =
    let rest = read_places k s (n * 10 + (c - 48)) in if is_digit c then rest else none

unfoldable pub read_amount : List ℕ → ℕ → Option ℕ
read_amount [] n = none
read_amount (c ∷ s) n =
    let rest = read_amount s (n * 10 + (c - 48)) in
    let decimals = read_places 8 s n in
    if c == point then decimals else if is_digit c then rest else none

-- What is read after eight digits, whatever is read before them.
read_places-places :
    (n m : ℕ) → n < 100000000 → read_places 8 (places 8 n []) m ≡ some (m * 100000000 + n)
unfolding read_places
read_places-places n m h = ground arith

read_amount-fraction :
    (units n : ℕ) → read_amount (fraction units) n ≡ some (n * 100000000 + units % 100000000)
unfolding read_amount
read_amount-fraction units n = read_places-places (units % 100000000) n (omega arith)

read_amount-digit :
    (d n : ℕ) (s : List ℕ) → d < 10 → read_amount ((48 + d) ∷ s) n ≡ read_amount s (n * 10 + d)
unfolding read_amount
read_amount-digit d n s h = ground arith

significant-step :
    (k n : ℕ) (out : List ℕ)
    → (n == 0) ≡ false
    → significant (suc k) n out ≡ significant k (n / 10) ((48 + n % 10) ∷ out)
unfolding significant
significant-step k n out h = rw h refl

significant-nothing : (k n : ℕ) (out : List ℕ) → (n == 0) ≡ true → significant (suc k) n out ≡ out
unfolding significant
significant-nothing k n out h = rw h refl

-- The digits before the point are those of the number, as long as there are enough of them.
read_amount-significant :
    (k n : ℕ) (out : List ℕ) → n < pow10 k → read_amount (significant k n out) 0 ≡ read_amount out n
read_amount-significant zero n out h = unfold significant in ap (read_amount out) (omega arith)
read_amount-significant (suc k) n out h = elim (Bool-cases (n == 0)) [
  | inl nothing ↦ rw (significant-nothing k n out nothing) (ap (read_amount out) (ground arith))
  | inr some_left ↦ rw (significant-step k n out some_left) (
      read_amount-significant k (n / 10) ((48 + n % 10) ∷ out) (omega arith)
      ∙ read_amount-digit (n % 10) (n / 10) out (omega arith)
      ∙ ap (read_amount out) (omega arith))
]

-- An amount that fits its column of twenty-four digits, eight of them after the point, is read back
-- from its text.
pub read-serialize_amount :
    (units : ℕ) → units < pow10 24 → read_amount (serialize_amount units) 0 ≡ some units
unfolding serialize_amount
read-serialize_amount units h =
    let whole = units / 100000000 in
    let joined : whole * 100000000 + units % 100000000 ≡ units = omega arith in
    elim (Bool-cases (whole == 0)) [
      | inl small ↦ rw small (
          read_amount-digit 0 0 (fraction units) (omega arith)
          ∙ read_amount-fraction units 0
          ∙ ap some (ground arith))
      | inr large ↦ rw large (
          read_amount-significant 16 whole (fraction units) (omega arith)
          ∙ read_amount-fraction units whole
          ∙ ap some joined)
    ]
