-- ===== src/Broker/Bounds.antt =====
-- What the simulated broker may fill.
use Prim.Native.String.{◌++◌ as str_append, count}
use order_management_system.Prelude.{
  ℕ, ◌+◌, ◌*◌, ◌/◌, ◌≤◌, ◌<◌, ◌≡◌, refl, ap, String, Bool, true, List, [], ◌∷◌, leb, ltb, ◌&&◌,
  arith, not, str_eq, str_eq_iff, inl, inr, Bool-cases,
}
use text.Mathlib.TextLemmas.{length-append}
use native.Mathlib.Omega.{div_any}
use native.Mathlib.Nat.{mod-lt}
use order_management_system.Prelude.Uuid.{uuid_text}
use order_management_system.Prelude.Table.{sum_of}
use order_management_system.Models.{BrokerExecutionEvent}
use order_management_system.Schemas.{fill_payload_valid}
use order_management_system.Broker.{
  BrokerOrder, Draws, Drawn, draw_full, draw_partial, draw_rejected, partial_quantity,
  full_fill_event, rejection_event, partial_fill_event, follow_up, simulate_outcome, simulate_order,
}

-- A partial fill takes some of what remains, and no more, whatever the ratio.
pub partial_quantity_fits :
    (remaining above below : ℕ)
    → 0 < remaining
    → (0 < partial_quantity remaining above below)
      × (partial_quantity remaining above below ≤ remaining)
unfolding partial_quantity
partial_quantity_fits remaining above below h = ground arith

mul_le : (x a b : ℕ) → a ≤ b → x * a ≤ x * b
mul_le x a b h = grind arith

quotient_bounds :
    (remaining above below : ℕ)
    → 0 < below
    → below ≤ 4 * above
    → 4 * above ≤ 3 * below
    → (4 * (remaining * above / below) ≤ 3 * remaining)
      × (remaining < 4 * (remaining * above / below + 1))
quotient_bounds remaining above below some_below low high =
    let q = remaining * above / below in
    (
      elim (Bool-cases (leb (4 * q) (3 * remaining))) [
        | inl within ↦ ground arith
        | inr past ↦ absurd (
            ground (
              arith,
              div_any (remaining * above) below,
              mul_le below (3 * remaining + 1) (4 * q),
              mul_le remaining (4 * above) (3 * below) high,
            ))
      ],
      elim (Bool-cases (ltb remaining (4 * (q + 1)))) [
        | inl within ↦ ground arith
        | inr past ↦ absurd (
            ground (
              arith,
              div_any (remaining * above) below,
              mod-lt (remaining * above) some_below,
              mul_le below (4 * (q + 1)) remaining,
              mul_le remaining below (4 * above) low,
            ))
      ],
    )

-- With a ratio between one and three quarters, of four units or more, it takes between one and three
-- quarters, to the unit.
pub partial_quantity_bounds :
    (remaining above below : ℕ)
    → 4 ≤ remaining
    → 0 < below
    → below ≤ 4 * above
    → 4 * above ≤ 3 * below
    → (4 * partial_quantity remaining above below ≤ 3 * remaining)
      × (remaining < 4 * (partial_quantity remaining above below + 1))
unfolding partial_quantity
partial_quantity_bounds remaining above below four some_below low high =
    ground (arith, quotient_bounds remaining above below)

abbrev pub all_valid : List BrokerExecutionEvent → Bool
all_valid [] = true
all_valid (e ∷ es) = fill_payload_valid e && all_valid es

abbrev pub total_filled : List BrokerExecutionEvent → ℕ
total_filled = sum_of (λ (e : BrokerExecutionEvent). e.filled_quantity)

pub sim_text : (s : String) → not (str_eq (str_append "SIM-" s) "") ≡ true
sim_text s = elim (Bool-cases (str_eq (str_append "SIM-" s) "")) [
  | inr filled ↦ rw filled refl
  | inl empty ↦
      let same = (str_eq_iff (str_append "SIM-" s) "").0 empty in
      absurd (omega (arith, ap count same, length-append "SIM-" s))
]

simulate_outcome_fits :
    (outcome : Drawn) (order : BrokerOrder) (draws : Draws)
    → 0 < order.remaining_quantity
    → 0 < order.price
    → (all_valid (simulate_outcome outcome order draws) ≡ true)
      × (total_filled (simulate_outcome outcome order draws) ≤ order.remaining_quantity)
unfolding simulate_outcome fill_payload_valid full_fill_event rejection_event partial_fill_event
    follow_up
simulate_outcome_fits draw_rejected order draws some_left priced = ground arith
simulate_outcome_fits draw_full order draws some_left priced =
    ground (arith, sim_text (uuid_text draws.execution))
simulate_outcome_fits draw_partial order draws some_left priced = ground (
  arith,
  partial_quantity_fits order.remaining_quantity draws.ratio_above draws.ratio_below,
  sim_text (uuid_text draws.execution),
  sim_text (uuid_text draws.next_execution),
)

-- Whatever is drawn for an order with something left and a positive price, the events are as the
-- schema wants them, and fill no more than what is left.
pub simulate_order_fits :
    (order : BrokerOrder) (draws : Draws)
    → 0 < order.remaining_quantity
    → 0 < order.price
    → (all_valid (simulate_order order draws) ≡ true)
      × (total_filled (simulate_order order draws) ≤ order.remaining_quantity)
unfolding simulate_order
simulate_order_fits order draws some_left priced =
    simulate_outcome_fits draws.outcome order draws some_left priced
