-- ===== src/Lob/Ladder/Best.antt =====
-- The top of the book: the queries of luv_lob.hpp on an ordered book.
use luv_flicker.Base.{
  ℕ, zero, suc, ◌+◌, ◌<◌, ◌≡◌, ◌⊎◌, ℤ, pos, negsuc, ◌≤ℤ◌, ◌+ℤ◌, ltb_ℤ, true, arith,
}
use luv_flicker.Arena.Config
use luv_flicker.Lob.State.{LobEngine, level, level_count}
use luv_flicker.Lob.Levels.{ahead}
use luv_flicker.Lob.Queries.{best_bid_price, best_ask_price, mid_price, half}
use luv_flicker.Lob.Ladder.{IsOrdered}

-- On an ordered book no level of the bid side has a price above `best_bid_price`, and only the first
-- level has that price.
pub best_bid_price-highest :
    (e : LobEngine) (symbol depth : ℕ)
    → IsOrdered e
    → symbol < Config.symbols
    → depth < level_count e symbol 0
    → ((depth ≡ 0) × ((level e symbol 0 depth).price ≡ best_bid_price e symbol))
      ⊎ (ltb_ℤ (level e symbol 0 depth).price (best_bid_price e symbol) ≡ true)
unfolding best_bid_price ahead level_count
best_bid_price-highest e symbol zero v s d = ground arith
best_bid_price-highest e symbol (suc depth) v s d =
    let h = v.sorted symbol 0 (omega arith) 0 (suc depth) (omega arith) d in ground arith

-- On an ordered book no level of the ask side has a price below `best_ask_price`, and only the first
-- level has that price.
pub best_ask_price-lowest :
    (e : LobEngine) (symbol depth : ℕ)
    → IsOrdered e
    → symbol < Config.symbols
    → depth < level_count e symbol 1
    → ((depth ≡ 0) × ((level e symbol 1 depth).price ≡ best_ask_price e symbol))
      ⊎ (ltb_ℤ (best_ask_price e symbol) (level e symbol 1 depth).price ≡ true)
unfolding best_ask_price ahead level_count
best_ask_price-lowest e symbol zero v s d = ground arith
best_ask_price-lowest e symbol (suc depth) v s d =
    let h = v.sorted symbol 1 (omega arith) 0 (suc depth) (omega arith) d in ground arith

half_between : (a b : ℤ) → pos 1 ≤ℤ a → a ≤ℤ b → (a ≤ℤ half (a +ℤ b)) × (half (a +ℤ b) ≤ℤ b)
unfolding ◌+ℤ◌
half_between (pos a) (pos b) h k =
    let total : pos a +ℤ pos b ≡ pos (a + b) = ground arith in rw total (omega arith, omega arith)
half_between (pos a) (negsuc b) h k = absurd (omega arith)
half_between (negsuc a) b h k = absurd (omega arith)

-- If the best bid is positive and not above the best ask, the mid price lies between the two.
pub mid_price_between :
    (e : LobEngine) (symbol : ℕ)
    → symbol < Config.symbols
    → pos 1 ≤ℤ best_bid_price e symbol
    → best_bid_price e symbol ≤ℤ best_ask_price e symbol
    → (best_bid_price e symbol ≤ℤ mid_price e symbol)
      × (mid_price e symbol ≤ℤ best_ask_price e symbol)
unfolding mid_price
mid_price_between e symbol s b c =
    let m : mid_price e symbol ≡ half (best_bid_price e symbol +ℤ best_ask_price e symbol) =
      ground arith in
    rw m (half_between (best_bid_price e symbol) (best_ask_price e symbol) b c)
