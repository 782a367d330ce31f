-- ===== src/Domain/PositionRules/Equity.antt =====
-- Fills conserve the total profit and loss: a fill at price p moves it by what the filled units gain
-- between p and the mark.
use order_management_system.Prelude.{
  ℕ, suc, zero, ◌+◌, ◌*◌, ◌≤◌, ◌<◌, ◌≡◌, refl, false, arith, min, ap,
}
use order_management_system.Prelude.Int.{ℤ, pos, negsuc, ◌+ℤ◌, ◌-ℤ◌, ◌*ℤ◌, -ℤ_parts, *ℤ_parts}
use order_management_system.Domain.Enums.{OrderSide, buy, sell}
use order_management_system.Domain.Errors.{ok}
use order_management_system.Domain.PositionRules.{
  PositionCalculation, signed_fill, calculate_position_after_fill, quotient,
}
use order_management_system.Domain.PositionRules.Balance.{
  total_pnl, increases, average_long, average_short, balance, kept_average, long_balance,
  short_balance, minus_suc, swap_parts,
}

-- A fill against a long position, and one against a short position.
module _ (c f a p m : ℕ) (r0 : ℤ) (after : PositionCalculation) where
  long_result :
      calculate_position_after_fill (pos (suc c)) a r0 sell (suc f) p ≡ ok after
      → after ≡ record {
        net_quantity = pos (suc c) +ℤ negsuc f;
        average_entry_price = kept_average c f a p;
        realized_pnl = r0 +ℤ (pos p -ℤ pos a) *ℤ pos (min (suc c) (suc f));
      }
  unfolding calculate_position_after_fill
  long_result h =
      ground (arith, minus_suc f, average_long c f a p, *ℤ_parts (pos (suc c)) (negsuc f))

  short_result :
      calculate_position_after_fill (negsuc c) a r0 buy (suc f) p ≡ ok after
      → after ≡ record {
        net_quantity = negsuc c +ℤ pos (suc f);
        average_entry_price = kept_average c f a p;
        realized_pnl = r0 +ℤ (pos a -ℤ pos p) *ℤ pos (min (suc c) (suc f));
      }
  unfolding calculate_position_after_fill
  short_result h = ground (arith, average_short c f a p, *ℤ_parts (negsuc c) (pos (suc f)))

  long_conserves :
      calculate_position_after_fill (pos (suc c)) a r0 sell (suc f) p ≡ ok after
      → total_pnl after.realized_pnl after.net_quantity after.average_entry_price m
        ≡ total_pnl r0 (pos (suc c)) a m +ℤ (pos m -ℤ pos p) *ℤ negsuc f
  long_conserves h = rw (long_result h) (
      balance r0 a (kept_average c f a p) p m (pos (suc c)) (negsuc f) (pos (suc c) +ℤ negsuc f)
        (pos (min (suc c) (suc f))) (ground (arith, long_balance a p m c f _ refl)))

  short_conserves :
      calculate_position_after_fill (negsuc c) a r0 buy (suc f) p ≡ ok after
      → total_pnl after.realized_pnl after.net_quantity after.average_entry_price m
        ≡ total_pnl r0 (negsuc c) a m +ℤ (pos m -ℤ pos p) *ℤ pos (suc f)
  short_conserves h =
      rw (short_result h, swap_parts a p (min (suc c) (suc f)))
        (balance r0 a (kept_average c f a p) p m (negsuc c) (pos (suc f)) (negsuc c +ℤ pos (suc f))
          (pos 0 -ℤ pos (min (suc c) (suc f)))
          (ground (
            arith,
            short_balance a p m c f _ refl,
            -ℤ_parts (pos 0) (pos (min (suc c) (suc f))),
            ap (λ (t : ℕ). a * t) (-ℤ_parts (pos 0) (pos (min (suc c) (suc f)))),
            ap (λ (t : ℕ). p * t) (-ℤ_parts (pos 0) (pos (min (suc c) (suc f)))),
          )))

-- A fill of the other side than the position, whether it reduces, closes or turns it, conserves the
-- total profit and loss: at every mark it is what it was, plus what the filled quantity gains between
-- the price of the fill and the mark.
pub close_conserves :
    (q : ℤ) (a p m n : ℕ) (r0 : ℤ) (side : OrderSide) (after : PositionCalculation)
    → 0 < n
    → increases q (signed_fill side n) ≡ false
    → calculate_position_after_fill q a r0 side n p ≡ ok after
    → total_pnl after.realized_pnl after.net_quantity after.average_entry_price m
      ≡ total_pnl r0 q a m +ℤ (pos m -ℤ pos p) *ℤ signed_fill side n
close_conserves (pos zero) a p m n r0 side after some_filled closing h = absurd (ground arith)
close_conserves q a p m zero r0 side after some_filled closing h = absurd (ground arith)
close_conserves (pos (suc c)) a p m (suc f) r0 buy after some_filled closing h =
    absurd (ground (arith, *ℤ_parts (pos (suc c)) (pos (suc f))))
close_conserves (pos (suc c)) a p m (suc f) r0 sell after some_filled closing h =
    rw (minus_suc f) (long_conserves c f a p m r0 after h)
close_conserves (negsuc c) a p m (suc f) r0 buy after some_filled closing h =
    short_conserves c f a p m r0 after h
close_conserves (negsuc c) a p m (suc f) r0 sell after some_filled closing h =
    absurd (ground (arith, minus_suc f, *ℤ_parts (negsuc c) (negsuc f)))

-- A division is to the nearest price.
quotient-nearest :
    (a b : ℕ) → 0 < b → (2 * (quotient a b * b) ≤ 2 * a + b) × (2 * a ≤ 2 * (quotient a b * b) + b)
unfolding quotient
quotient-nearest a b h = grind arith
