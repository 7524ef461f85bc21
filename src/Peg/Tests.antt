-- ===== src/Peg/Tests.antt =====
-- Runs of luv_order_peg.hpp.
use luv_flicker.Base.{ℕ, ◌<◌, ◌≡◌, ◌⊎◌, refl, negsuc, true, arith, ◌+ℤ◌}
use luv_flicker.Peg.{PegType, PeggedOrder, base_price, to_int64, capped, compute_pegged_price}
use luv_flicker.Peg.Price.{IsPegPrice, compute_pegged_price-IsPegPrice}

-- To buy at the midpoint less 2, at 104 at most.
abbrev order : PeggedOrder
order = record {
  order_id = 1;
  is_buy = true;
  peg_type = PegType.midpoint;
  offset_ticks = negsuc 1;
  limit_cap = 104;
  quantity = 10;
  current_effective_price = 0;
}

compute_pegged_price-IsPegPrice_example :
    IsPegPrice order 100 110 (compute_pegged_price order 100 110)
    × (◌≡◌ {A = ℕ} 100 0 ⊎ (110 < 100) → compute_pegged_price order 100 110 ≡ 0)
compute_pegged_price-IsPegPrice_example =
    compute_pegged_price-IsPegPrice order 100 110 (omega arith)

below_cap : compute_pegged_price order 100 110 ≡ 103
unfolding compute_pegged_price base_price to_int64 capped ◌+ℤ◌
below_cap = refl

at_cap : compute_pegged_price order 110 120 ≡ 104
unfolding compute_pegged_price base_price to_int64 capped ◌+ℤ◌
at_cap = refl
