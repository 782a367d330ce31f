-- ===== src/Domain/PositionRules/Balance.antt =====
-- The profit and loss of a position at a mark, and how a fill balances it: identities between the
-- position before, the fill and the position after.
use order_management_system.Prelude.{
  ℕ, suc, ◌+◌, ◌*◌, ◌-◌, ◌≤◌, ◌<◌, ◌≡◌, ◌⊎◌, Bool, true, some, arith, ltb, min, ◌||◌, Bool-cases,
  inl, inr, if◌then◌else◌, ap, ◌==◌,
}
use order_management_system.Prelude.Int.{
  ℤ, pos, negsuc, pos_part, neg_part, ◌+ℤ◌, ◌-ℤ◌, ◌*ℤ◌, ltb_ℤ, +ℤ_parts, -ℤ_parts, scale_parts,
  scale_sub, eq_of_parts,
}
use order_management_system.Domain.PositionRules.{
  is_zero, average_after_close, calculate_unrealized_pnl,
}

-- Realised and unrealised profit and loss of a position at a mark.
abbrev pub total_pnl : ℤ → ℤ → ℕ → ℕ → ℤ
total_pnl realized_pnl net_quantity average_entry_price mark =
    realized_pnl +ℤ calculate_unrealized_pnl net_quantity average_entry_price (some mark)

-- The test for a position without quantity makes no difference to the profit and loss.
unrealized_lem :
    (q : ℤ) (a m : ℕ) → calculate_unrealized_pnl q a (some m) ≡ pos m *ℤ q -ℤ pos a *ℤ q
unfolding calculate_unrealized_pnl
unrealized_lem q a m = eq_of_parts _ _ (
    ground (
      arith,
      scale_sub m a q,
      scale_parts m q,
      scale_parts a q,
      -ℤ_parts (pos m *ℤ q) (pos a *ℤ q),
    ))

-- Whether a fill adds to a position, as the code tests it.
abbrev pub increases : ℤ → ℤ → Bool
increases current signed = is_zero current || ltb_ℤ (pos 0) (current *ℤ signed)

same_sign :
    (a b : ℤ)
    → (ltb_ℤ (pos 0) (a *ℤ b) ≡ true)
    → ((0 < pos_part a) × (0 < pos_part b)) ⊎ ((0 < neg_part a) × (0 < neg_part b))
unfolding ◌*ℤ◌
same_sign a b h = grind arith

-- Which price stays the average after a fill of `suc f` units against `suc c`.
pub average_long :
    (c f a p : ℕ)
    → average_after_close (pos (suc c)) (pos (suc c) +ℤ negsuc f) a p
      ≡ (if ltb f c then a else if f == c then 0 else p)
unfolding ◌+ℤ◌ ◌*ℤ◌
average_long c f a p = grind arith

pub average_short :
    (c f a p : ℕ)
    → average_after_close (negsuc c) (negsuc c +ℤ pos (suc f)) a p
      ≡ (if ltb f c then a else if f == c then 0 else p)
unfolding ◌+ℤ◌ ◌*ℤ◌
average_short c f a p = grind arith

-- What a quantity gains between two prices.
gain_parts :
    (x y : ℕ) (z : ℤ)
    → pos_part ((pos x -ℤ pos y) *ℤ z) + (y * pos_part z + x * neg_part z)
      ≡ neg_part ((pos x -ℤ pos y) *ℤ z) + (x * pos_part z + y * neg_part z)
gain_parts x y z =
    ground
      (arith, scale_sub x y z, scale_parts x z, scale_parts y z, -ℤ_parts (pos x *ℤ z) (pos y *ℤ z))

unrealized_parts :
    (q : ℤ) (a m : ℕ)
    → pos_part (calculate_unrealized_pnl q a (some m)) + (a * pos_part q + m * neg_part q)
      ≡ neg_part (calculate_unrealized_pnl q a (some m)) + (m * pos_part q + a * neg_part q)
unrealized_parts q a m = ground (
  arith,
  unrealized_lem q a m,
  scale_parts m q,
  scale_parts a q,
  -ℤ_parts (pos m *ℤ q) (pos a *ℤ q),
)

-- The balance of a fill: `x` is the position before, `y` the fill and `z` the position after, whose
-- average is `b`; `k` is what is realised.
pub balance :
    (r0 : ℤ) (a b p m : ℕ) (x y z k : ℤ)
    → p * pos_part k
        + a * neg_part k
        + (m * pos_part z + b * neg_part z)
        + (a * pos_part x + m * neg_part x)
        + (m * neg_part y + p * pos_part y)
      ≡ a * pos_part k
        + p * neg_part k
        + (b * pos_part z + m * neg_part z)
        + (m * pos_part x + a * neg_part x)
        + (m * pos_part y + p * neg_part y)
    → total_pnl (r0 +ℤ (pos p -ℤ pos a) *ℤ k) z b m ≡ total_pnl r0 x a m +ℤ (pos m -ℤ pos p) *ℤ y
balance r0 a b p m x y z k h = eq_of_parts _ _ (
    omega (
      arith,
      h,
      gain_parts p a k,
      gain_parts m p y,
      unrealized_parts z b m,
      unrealized_parts x a m,
      +ℤ_parts r0 ((pos p -ℤ pos a) *ℤ k),
      +ℤ_parts (r0 +ℤ (pos p -ℤ pos a) *ℤ k) (calculate_unrealized_pnl z b (some m)),
      +ℤ_parts r0 (calculate_unrealized_pnl x a (some m)),
      +ℤ_parts (r0 +ℤ calculate_unrealized_pnl x a (some m)) ((pos m -ℤ pos p) *ℤ y),
    ))

-- What stays the average after a fill of `suc f` units against `suc c`.
abbrev pub kept_average : ℕ → ℕ → ℕ → ℕ → ℕ
kept_average c f a p = if ltb f c then a else if f == c then 0 else p

split_mul : (x b c : ℕ) → b ≤ c → x * (c - b) + x * b ≡ x * c
split_mul x b c h = grind arith

module _ (a p m c f : ℕ) (z : ℤ) where
  pub long_balance :
      z ≡ pos (suc c) +ℤ negsuc f
      → p * min (suc c) (suc f)
          + (m * pos_part z + kept_average c f a p * neg_part z)
          + a * suc c
          + m * suc f
        ≡ a * min (suc c) (suc f)
          + (kept_average c f a p * pos_part z + m * neg_part z)
          + m * suc c
          + p * suc f
  unfolding ◌+ℤ◌
  long_balance h = elim (Bool-cases (ltb f c)) [
    | inl part ↦
        let least : min (suc c) (suc f) ≡ suc f = ground arith in
        let rest : z ≡ pos (c - f) = ground arith in
        rw (least, rest, part)
          (ground (arith, split_mul a f c (ground arith), split_mul m f c (ground arith)))
    | inr whole ↦
        let least : min (suc c) (suc f) ≡ suc c = ground arith in
        elim (Bool-cases (f == c)) [
          | inl exact ↦
              let none_left : z ≡ pos 0 = ground arith in
              rw (least, none_left, whole, exact) (ground arith)
          | inr flip ↦
              let turned : z ≡ negsuc (f - c - 1) = ground arith in
              rw (least, turned, whole, flip)
                (ground (
                  arith,
                  split_mul p c f (ground arith),
                  split_mul m c f (ground arith),
                  split_mul p 1 (f - c) (ground arith),
                  split_mul m 1 (f - c) (ground arith),
                ))
        ]
  ]

  pub short_balance :
      z ≡ negsuc c +ℤ pos (suc f)
      → a * min (suc c) (suc f)
          + (m * pos_part z + kept_average c f a p * neg_part z)
          + m * suc c
          + p * suc f
        ≡ p * min (suc c) (suc f)
          + (kept_average c f a p * pos_part z + m * neg_part z)
          + a * suc c
          + m * suc f
  unfolding ◌+ℤ◌
  short_balance h = elim (Bool-cases (ltb f c)) [
    | inl part ↦
        let least : min (suc c) (suc f) ≡ suc f = ground arith in
        let rest : z ≡ negsuc (c - f - 1) = ground arith in
        rw (least, rest, part)
          (ground (
            arith,
            split_mul a f c (ground arith),
            split_mul m f c (ground arith),
            split_mul a 1 (c - f) (ground arith),
            split_mul m 1 (c - f) (ground arith),
          ))
    | inr whole ↦
        let least : min (suc c) (suc f) ≡ suc c = ground arith in
        elim (Bool-cases (f == c)) [
          | inl exact ↦
              let none_left : z ≡ pos 0 = ground arith in
              rw (least, none_left, whole, exact) (ground arith)
          | inr flip ↦
              let turned : z ≡ pos (f - c) = ground arith in
              rw (least, turned, whole, flip)
                (ground (arith, split_mul p c f (ground arith), split_mul m c f (ground arith)))
        ]
  ]

pub minus_suc : (f : ℕ) → pos 0 -ℤ pos (suc f) ≡ negsuc f
unfolding ◌-ℤ◌
minus_suc f = ground arith

-- A short close is booked with the prices the other way round.
pub swap_parts : (x y k : ℕ) → (pos x -ℤ pos y) *ℤ pos k ≡ (pos y -ℤ pos x) *ℤ (pos 0 -ℤ pos k)
swap_parts x y k = eq_of_parts _ _ (
    ground (
      arith,
      gain_parts x y (pos k),
      gain_parts y x (pos 0 -ℤ pos k),
      -ℤ_parts (pos 0) (pos k),
      ap (λ (t : ℕ). x * t) (-ℤ_parts (pos 0) (pos k)),
      ap (λ (t : ℕ). y * t) (-ℤ_parts (pos 0) (pos k)),
    ))
