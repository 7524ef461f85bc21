-- ===== src/Lob/Tests.antt =====
-- Concrete runs of luv_lob.hpp's `LOBEngine`, and its theorems at concrete books.
use luv_flicker.Base.{ℕ, ◌≢◌, ◌+◌, ◌*◌, ℤ, pos, true, false, [], ◌∷◌, refl, arith}
use luv_flicker.Arena.{TickMsg, zero_tick, zeroed_level}
use luv_flicker.RefMap
use luv_flicker.RefMap.{OrderRefMap}
use luv_flicker.Lob.State.{LobEngine, init, zero_meta, zero_stats}
use luv_flicker.Lob.Levels.{ahead, search_level}
use luv_flicker.Lob.Levels.Search.{Sorted, search_level_complete}
use luv_flicker.Lob.Handlers.{process_unlocked}
use luv_flicker.Lob.Ladder.{IsOrdered}
use luv_flicker.Lob.Ladder.Messages.{process-IsOrdered, run, run-init-IsOrdered}
use luv_flicker.Base.{◌==◌, if◌then◌else◌}
use luv_flicker.Arena.{level_index}
use luv_flicker.Lob.State.{level, level_count}

abbrev unmapped : OrderRefMap
unmapped = record {
  mapped = false;
  keys = λ i. 0;
  values = λ i. record { symbol_idx = 0; side = 0; level_idx = 0; slot_idx = pos 0 };
  count = 0;
}

abbrev blank : LobEngine
blank = record {
  attached = false;
  lob_flat = λ i. zeroed_level;
  order_map = unmapped;
  metas = λ s. zero_meta;
  stats = zero_stats;
}

abbrev opened : LobEngine
opened = (init blank true true).0

-- Bids at 1000 and at 1100, and the replacement of the first by one at 1200.
abbrev first_bid : TickMsg
first_bid = record zero_tick {
  msg_type = b'A';
  flags = 1;
  symbol_idx = 3;
  price = pos 1000;
  qty = pos 50;
  order_ref = 7;
}

abbrev better_bid : TickMsg
better_bid = record first_bid { price = pos 1100; order_ref = 8 }

abbrev replacement : TickMsg
replacement = record first_bid { msg_type = b'U'; price = pos 1200; match_num = 9 }

run-init-IsOrdered_example : IsOrdered (run opened (first_bid ∷ better_bid ∷ replacement ∷ []))
unfolding init RefMap.init
run-init-IsOrdered_example =
    run-init-IsOrdered blank true true (first_bid ∷ better_bid ∷ replacement ∷ []) refl

resting-IsOrdered : IsOrdered (run opened (first_bid ∷ []))
unfolding init RefMap.init
resting-IsOrdered = run-init-IsOrdered blank true true (first_bid ∷ []) refl

process-IsOrdered_example : IsOrdered (process_unlocked (run opened (first_bid ∷ [])) better_bid)
process-IsOrdered_example =
    process-IsOrdered (run opened (first_bid ∷ [])) better_bid resting-IsOrdered

-- Five asks, at 10, 20, 30, 40 and 50.
abbrev ladder : ℕ → ℤ
ladder i = pos (10 * i + 10)

ladder-Sorted : Sorted 1 ladder 5
unfolding ahead
ladder-Sorted i j h k = ground arith

search_level_complete_example : ladder 2 ≢ pos 35
unfolding search_level ahead
search_level_complete_example =
    search_level_complete ladder 1 (pos 35) 5 0 5 ladder-Sorted (omega arith) refl 2 (omega arith)
      (omega arith)

-- A map in which reference 7 stands.
abbrev known : LobEngine
known = record opened { order_map = record unmapped { mapped = true; keys = λ i. 7 } }

-- Bids at 1000 and 990, an ask at 1010.
abbrev two_bids : LobEngine
two_bids = record blank {
  lob_flat = λ i. record zeroed_level {
    price =
        if i == level_index 3 0 0
        then pos 1000
        else if i == level_index 3 0 1
        then pos 990
        else pos 1010;
  };
  metas = λ s. if s == 3 then record zero_meta { bid_levels = 2; ask_levels = 1 } else zero_meta;
}

two_bids-IsOrdered : IsOrdered two_bids
unfolding level level_count level_index ahead
two_bids-IsOrdered = record {
  depth = λ s side h. ground arith;
  sorted = λ s side h i j a b. ground arith;
}

abbrev top : ℕ
top = 0

abbrev second : ℕ
second = 1
