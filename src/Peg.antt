-- ===== src/Peg.antt =====
-- luv_order_peg.hpp, `PeggingEngine`. Prices are uint64_t and become int64_t for the sum with the
-- offset, which is taken to fit.
pub mod Price
mod Tests
use luv_flicker.Base.{
  ℕ, ◌+◌, ◌-◌, ◌/◌, ◌%◌, ◌^◌, ℤ, pos, negsuc, ◌+ℤ◌, leb_ℤ, pos_part, Bool, true, false, ◌||◌,
  if◌then◌else◌, ◌==◌, ltb, min, max,
}

pub data PegType : Type 0 where
  midpoint primary market : PegType

pub record PeggedOrder : Type 0 where
  pub order_id : ℕ
  pub is_buy : Bool
  pub peg_type : PegType
  pub offset_ticks : ℤ
  pub limit_cap : ℕ
  pub quantity : ℕ
  pub current_effective_price : ℕ

-- `static_cast<int64_t>` of a uint64_t.
unfoldable pub to_int64 : ℕ → ℤ
to_int64 v = if ltb v (2 ^ 63) then pos v else negsuc (2 ^ 64 - 1 - v)

unfoldable pub base_price : PegType → Bool → ℕ → ℕ → ℤ
base_price PegType.midpoint is_buy best_bid best_ask = to_int64 ((best_bid + best_ask) % 2 ^ 64 / 2)
base_price PegType.primary is_buy best_bid best_ask =
    to_int64 (if is_buy then best_bid else best_ask)
base_price PegType.market is_buy best_bid best_ask =
    to_int64 (if is_buy then best_ask else best_bid)

-- The limit of the order, if it has one.
unfoldable pub capped : PeggedOrder → ℕ → ℕ
capped order price =
    if ltb 0 order.limit_cap
    then if order.is_buy then min price order.limit_cap else max price order.limit_cap
    else price

unfoldable pub compute_pegged_price : PeggedOrder → ℕ → ℕ → ℕ
compute_pegged_price order best_bid best_ask =
    let calculated =
      base_price order.peg_type order.is_buy best_bid best_ask +ℤ order.offset_ticks in
    if best_bid == 0 || best_ask == 0 || ltb best_ask best_bid
    then 0
    else if leb_ℤ calculated (pos 0)
    then 0
    else capped order (pos_part calculated)

unfoldable pub update_order_price : PeggedOrder → ℕ → ℕ → PeggedOrder × Bool
update_order_price order best_bid best_ask =
    let new_price = compute_pegged_price order best_bid best_ask in
    if new_price == order.current_effective_price
    then (order, false)
    else (record order { current_effective_price = new_price }, true)
