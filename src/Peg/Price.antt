-- ===== src/Peg/Price.antt =====
-- The prices of luv_order_peg.hpp.
use luv_flicker.Base.{
  ℕ, ◌^◌, ◌<◌, ◌≤◌, pos, ◌+ℤ◌, ◌≤ℤ◌, +ℤ_parts, ◌≡◌, ◌⊎◌, refl, inl, inr, Bool, true, false, sym,
  ==_iff, ◌==◌, arith, Bool-cases,
}
use luv_flicker.Peg.{
  PegType, PeggedOrder, to_int64, base_price, capped, compute_pegged_price, update_order_price,
}

-- The base price of a valid best bid and ask, below 2 ^ 62, is between them.
base_price-between :
    (kind : PegType) (is_buy : Bool) (bid ask : ℕ)
    → bid ≤ ask
    → ask < 2 ^ 62
    → (pos bid ≤ℤ base_price kind is_buy bid ask) × (base_price kind is_buy bid ask ≤ℤ pos ask)
unfolding base_price to_int64
base_price-between PegType.midpoint is_buy bid ask h k = ground arith
base_price-between PegType.primary is_buy bid ask h k = ground arith
base_price-between PegType.market is_buy bid ask h k = ground arith

-- What the price of a pegged order may be: none, or within its cap, and without a cap, off the market by its offset.
pub record IsPegPrice (order : PeggedOrder) (bid ask price : ℕ) : Type 0 where
  pub within_cap :
      0 < price
      → 0 < order.limit_cap
      → (order.is_buy ≡ true → price ≤ order.limit_cap)
        × (order.is_buy ≡ false → order.limit_cap ≤ price)
  pub off_market :
      0 < price
      → order.limit_cap ≡ 0
      → (pos bid +ℤ order.offset_ticks ≤ℤ pos price) × (pos price ≤ℤ pos ask +ℤ order.offset_ticks)

-- For a best bid and ask below 2 ^ 62, the price of a pegged order is 0 when they are no valid quote, and else 0
-- or a price on the right side of the order's limit which, when there is no limit, is
-- between the bid and the ask, both moved by the offset.
pub compute_pegged_price-IsPegPrice :
    (order : PeggedOrder) (bid ask : ℕ)
    → ask < 2 ^ 62
    → IsPegPrice order bid ask (compute_pegged_price order bid ask)
      × ((bid ≡ 0) ⊎ (ask < bid) → compute_pegged_price order bid ask ≡ 0)
unfolding compute_pegged_price capped
compute_pegged_price-IsPegPrice order bid ask small = (
  record {
    within_cap = λ some cap. (λ side. ground arith, λ side. ground arith);
    off_market = λ some cap. ground (
      arith,
      base_price-between order.peg_type order.is_buy bid ask,
      +ℤ_parts (base_price order.peg_type order.is_buy bid ask) order.offset_ticks,
      +ℤ_parts (pos bid) order.offset_ticks,
      +ℤ_parts (pos ask) order.offset_ticks,
    );
  },
  λ invalid. ground arith,
)

-- The price does not depend on the one before.
compute_pegged_price_fixed :
    (order : PeggedOrder) (bid ask price : ℕ)
    → compute_pegged_price (record order { current_effective_price = price }) bid ask
      ≡ compute_pegged_price order bid ask
unfolding compute_pegged_price capped
compute_pegged_price_fixed order bid ask price = refl

-- A price is updated to the one computed, the answer says whether that changed it, and a second
-- update for the same best prices changes nothing.
pub update_order_price_twice :
    (order : PeggedOrder) (bid ask : ℕ)
    → ((update_order_price order bid ask).0.current_effective_price
        ≡ compute_pegged_price order bid ask)
      × (update_order_price (update_order_price order bid ask).0 bid ask
          ≡ ((update_order_price order bid ask).0, false))
unfolding update_order_price
update_order_price_twice order bid ask =
    let new = compute_pegged_price order bid ask in
    elim (Bool-cases (new == order.current_effective_price)) [
      | inl same ↦ rw (update_order_price, same, same) (sym ((==_iff _ _).0 same), refl)
      | inr changed ↦
          let same : new == new ≡ true = (==_iff new new).1 refl in
          rw (update_order_price, changed, compute_pegged_price_fixed order bid ask new, same)
            (refl, refl)
    ]
