-- ===== src/Auction/Tests.antt =====
-- An auction of three orders, and the theorems of luv_auction.hpp at it.
use luv_flicker.Base.{
  ℕ, ◌≡◌, ◌<◌, ◌^◌, ◌-◌, ◌-ℤ◌, ◌+ℤ◌, ℤ, pos, ◌≤ℤ◌, true, false, [], ◌∷◌, arith, refl,
}
use luv_flicker.Auction.{
  AuctionOrder, AuctionCrossEngine, price_levels, paired, imbalance, compute_noii, exists_price,
  collect_prices, sort_prices, insert_price, is_limit, buy_volume, sell_volume, volume, buys_at,
  sells_at,
}
use luv_flicker.Auction.Price.{compute_noii-maximal}
use luv_flicker.Exec.Types.{abs_i64}

abbrev order : ℕ → ℕ → ℤ → ℤ → AuctionOrder
order order_id side price qty = record {
  order_id = order_id;
  symbol_idx = 4;
  side = side;
  price = price;
  qty = qty;
  is_market = false;
  active = true;
}

-- 10 to buy at 102, 5 to buy at 100, 8 to sell at 99.
abbrev auction : AuctionCrossEngine
auction = record {
  orders =
      order 1 0 (pos 102) (pos 10) ∷ order 2 0 (pos 100) (pos 5) ∷ order 3 1 (pos 99) (pos 8) ∷ [];
  order_count = 3;
}

levels : price_levels auction 4 ≡ pos 99 ∷ pos 100 ∷ pos 102 ∷ []
unfolding price_levels collect_prices sort_prices insert_price exists_price is_limit
levels = refl

small : imbalance auction.orders 4 (pos 99) < 2 ^ 63 - 1
unfolding imbalance buy_volume sell_volume volume buys_at sells_at abs_i64 ◌-ℤ◌ ◌+ℤ◌
small = omega arith

middle : exists_price (pos 100) (pos 99 ∷ pos 100 ∷ pos 102 ∷ []) ≡ true
unfolding exists_price
middle = refl

compute_noii-maximal_example :
    paired auction.orders 4 (pos 101) ≤ℤ (compute_noii auction 4 (pos 90)).paired_qty
compute_noii-maximal_example =
    compute_noii-maximal auction 4 (pos 90) (pos 99) (pos 100 ∷ pos 102 ∷ []) (pos 101)
      (omega arith, (omega arith, (omega arith, tt))) levels small
