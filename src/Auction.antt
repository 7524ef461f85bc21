-- ===== src/Auction.antt =====
-- luv_auction.hpp: the orders of an auction, and the indicative match price. The sort of the standard
-- library is an insertion sort; volumes are integers.
pub mod Levels
pub mod Price
mod Tests
use luv_flicker.Base.{
  ℕ, zero, suc, ◌+◌, ◌-◌, ◌^◌, ℤ, pos, ◌+ℤ◌, ◌-ℤ◌, leb_ℤ, ltb_ℤ, eqb_ℤ, Bool, true, false, not,
  ◌&&◌, ◌||◌, List, [], ◌∷◌, Option, none, some, if◌then◌else◌, ◌==◌, leb, ltb, replicate, map,
}
use luv_flicker.Exec.Types.{buy, abs_i64}

pub data ImbalanceSide : Type 0 where
  balanced buy_imbalance sell_imbalance : ImbalanceSide

pub record AuctionOrder : Type 0 where
  pub order_id : ℕ
  pub symbol_idx : ℕ
  pub side : ℕ
  pub price : ℤ
  pub qty : ℤ
  pub is_market : Bool
  pub active : Bool

pub record NoiiSnapshot : Type 0 where
  pub symbol_idx : ℕ
  pub indicative_match_price : ℤ
  pub paired_qty : ℤ
  pub imbalance_qty : ℕ
  pub imbalance_side : ImbalanceSide

abbrev pub max_auction_orders : ℕ
max_auction_orders = 2048

pub record AuctionCrossEngine : Type 0 where
  pub orders : List AuctionOrder
  pub order_count : ℕ

-- The first inactive place.
unfoldable pub place_order : AuctionOrder → List AuctionOrder → Option (List AuctionOrder)
place_order order [] = none
place_order order (o ∷ os) =
    let rest = place_order order os in
    if not o.active
    then some (order ∷ os)
    else elim rest [ none ↦ none | some os' ↦ some (o ∷ os') ]

unfoldable pub add_auction_order :
    AuctionCrossEngine
    → (order_id symbol_idx side : ℕ) → (price qty : ℤ) → (is_market : Bool)
    → AuctionCrossEngine × Bool
unfolding place_order
add_auction_order e order_id symbol_idx side price qty is_market =
    let order : AuctionOrder = record {
      order_id = order_id;
      symbol_idx = symbol_idx;
      side = side;
      price = if is_market then pos 0 else price;
      qty = qty;
      is_market = is_market;
      active = true;
    } in
    if leb max_auction_orders e.order_count || leb_ℤ qty (pos 0)
    then (e, false)
    else elim (place_order order e.orders) [
      | none ↦ (e, false)
      | some os ↦ (record { orders = os; order_count = e.order_count + 1 }, true)
    ]

unfoldable pub reset : AuctionCrossEngine → AuctionCrossEngine
reset e = record {
  orders = map (λ (o : AuctionOrder). record o { active = false }) e.orders;
  order_count = 0;
}

-- The search in `price_levels`.
unfoldable pub exists_price : ℤ → List ℤ → Bool
exists_price p [] = false
exists_price p (q ∷ qs) = eqb_ℤ q p || exists_price p qs

-- An order of the symbol with a price of its own.
unfoldable pub is_limit : ℕ → AuctionOrder → Bool
is_limit symbol o = o.active && (o.symbol_idx == symbol) && not o.is_market

-- The loop that collects the levels; the level that is found last stands first, before the sort.
unfoldable pub collect_prices : ℕ → List ℤ → List AuctionOrder → List ℤ
unfolding exists_price is_limit
collect_prices symbol levels [] = levels
collect_prices symbol levels (o ∷ os) =
    collect_prices symbol
      (if is_limit symbol o && not (exists_price o.price levels) then o.price ∷ levels else levels)
      os

unfoldable pub insert_price : ℤ → List ℤ → List ℤ
insert_price p [] = p ∷ []
insert_price p (q ∷ qs) = let rest = insert_price p qs in if leb_ℤ p q then p ∷ q ∷ qs else q ∷ rest

unfoldable pub sort_prices : List ℤ → List ℤ
unfolding insert_price
sort_prices [] = []
sort_prices (p ∷ ps) = insert_price p (sort_prices ps)

-- Whether an order takes part on its side at a price.
unfoldable pub buys_at : ℕ → ℤ → AuctionOrder → Bool
buys_at symbol p o =
    o.active && (o.symbol_idx == symbol) && (o.side == buy) && (o.is_market || leb_ℤ p o.price)

unfoldable pub sells_at : ℕ → ℤ → AuctionOrder → Bool
sells_at symbol p o =
    o.active && (o.symbol_idx == symbol) && not (o.side == buy) && (o.is_market || leb_ℤ o.price p)

-- The two sums of the loop over the orders.
unfoldable pub volume : (AuctionOrder → Bool) → List AuctionOrder → ℤ
volume takes [] = pos 0
volume takes (o ∷ os) = (if takes o then o.qty else pos 0) +ℤ volume takes os

abbrev pub min_ℤ : ℤ → ℤ → ℤ
min_ℤ a b = if leb_ℤ a b then a else b

module _ (orders : List AuctionOrder) (symbol : ℕ) where
  unfoldable pub buy_volume : ℤ → ℤ
  unfolding volume buys_at
  buy_volume p = volume (buys_at symbol p) orders

  unfoldable pub sell_volume : ℤ → ℤ
  unfolding volume sells_at
  sell_volume p = volume (sells_at symbol p) orders

  unfoldable pub paired : ℤ → ℤ
  unfolding buy_volume sell_volume
  paired p = min_ℤ (buy_volume p) (sell_volume p)

  unfoldable pub imbalance : ℤ → ℕ
  unfolding buy_volume sell_volume
  imbalance p = abs_i64 (buy_volume p -ℤ sell_volume p)

pub record Best : Type 0 where
  pub price : ℤ
  pub max_paired : ℤ
  pub min_imbalance : ℕ

-- The loop over the levels.
unfoldable pub best_level : (ℤ → ℤ) → (ℤ → ℕ) → List ℤ → Best → Best
best_level paired_at imbalance_at [] b = b
best_level paired_at imbalance_at (p ∷ ps) b = best_level paired_at imbalance_at ps (
    if ltb_ℤ b.max_paired (paired_at p)
      || (eqb_ℤ (paired_at p) b.max_paired && ltb (imbalance_at p) b.min_imbalance)
    then record { price = p; max_paired = paired_at p; min_imbalance = imbalance_at p }
    else b)

unfoldable pub price_levels : AuctionCrossEngine → ℕ → List ℤ
unfolding collect_prices sort_prices
price_levels e symbol = sort_prices (collect_prices symbol [] e.orders)

-- The summary at the price that was found.
unfoldable pub summary : AuctionCrossEngine → ℕ → ℤ → NoiiSnapshot
unfolding buy_volume sell_volume paired imbalance
summary e symbol p = record {
  symbol_idx = symbol;
  indicative_match_price = p;
  paired_qty = paired e.orders symbol p;
  imbalance_qty = imbalance e.orders symbol p;
  imbalance_side =
      if ltb_ℤ (sell_volume e.orders symbol p) (buy_volume e.orders symbol p)
      then buy_imbalance
      else if ltb_ℤ (buy_volume e.orders symbol p) (sell_volume e.orders symbol p)
      then sell_imbalance
      else balanced;
}

unfoldable pub compute_noii : AuctionCrossEngine → ℕ → ℤ → NoiiSnapshot
unfolding price_levels best_level summary paired imbalance
compute_noii e symbol reference_price = elim (price_levels e symbol) [
  | [] ↦ record {
    symbol_idx = symbol;
    indicative_match_price = reference_price;
    paired_qty = pos 0;
    imbalance_qty = 0;
    imbalance_side = balanced;
  }
  | p ∷ ps ↦
      summary e symbol
        (best_level (paired e.orders symbol) (imbalance e.orders symbol) (p ∷ ps) (record {
          price = reference_price;
          max_paired = pos 0;
          min_imbalance = 2 ^ 63 - 1;
        })).price
]
