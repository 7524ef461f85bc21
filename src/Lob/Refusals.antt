-- ===== src/Lob/Refusals.antt =====
-- The error paths of luv_lob.hpp's `process_unlocked`: which ticks leave the book as it is.
use luv_flicker.Base.{if_cases, leb, refl, ℕ, ◌≡◌, ◌≢◌, true, false, ◌||◌, none, some, ◌==◌, arith}
use luv_flicker.Arena.Config
use luv_flicker.Arena.{TickMsg}
use luv_flicker.Numeric.{is_valid_quantity}
use luv_flicker.RefMap
use luv_flicker.Lob.State.{LobEngine, Stats, level_count, reject}
use luv_flicker.Lob.Orders.{find_order, reduce_order}
use luv_flicker.Lob.Handlers.{
  on_add_order, on_order_executed, on_order_cancel, on_order_delete, on_order_replace, on_trade,
  touch, process_unlocked, dispatch_cases,
}

-- Slab, map and level counts are the same; statistics and time stamps may differ.
pub record SameBook (e e' : LobEngine) : Type 0 where
  pub same_slab : e'.lob_flat ≡ e.lob_flat
  pub same_map : e'.order_map ≡ e.order_map
  pub same_counts : (symbol side : ℕ) → level_count e' symbol side ≡ level_count e symbol side

-- A tick whose quantity is out of range changes no order and no level, unless it is a delete, which
-- carries no quantity.
pub process_bad_quantity :
    (e : LobEngine) (tick : TickMsg)
    → is_valid_quantity tick.qty ≡ false
    → tick.msg_type ≢ b'D'
    → SameBook e (process_unlocked e tick)
unfolding process_unlocked touch reject level_count
process_bad_quantity e tick bad other = record {
  same_slab = ground arith;
  same_map = ground arith;
  same_counts = λ s d. ground arith;
}

SameBook-stats :
    (e e' : LobEngine) (s : Stats) → SameBook e e' → SameBook e (record e' { stats = s })
unfolding level_count
SameBook-stats e e' s v = record {
  same_slab = v.same_slab;
  same_map = v.same_map;
  same_counts = v.same_counts;
}

SameBook-touch : (e : LobEngine) (tick : TickMsg) → SameBook e (touch e tick)
unfolding touch level_count
SameBook-touch e tick = record {
  same_slab = ground arith;
  same_map = ground arith;
  same_counts = λ s d. ground arith;
}

find_order-none :
    (e : LobEngine) (r : ℕ) → RefMap.location e.order_map r ≡ none → find_order e r ≡ none
unfolding find_order
find_order-none e r h = rw (h, find_order) refl

-- A tick that is no add and whose order reference the map does not know changes no
-- order and no level.
pub process_unknown_order :
    (e : LobEngine) (tick : TickMsg)
    → RefMap.location e.order_map tick.order_ref ≡ none
    → tick.msg_type ≢ b'A'
    → tick.msg_type ≢ b'F'
    → SameBook e (process_unlocked e tick)
unfolding process_unlocked reject on_order_executed on_order_cancel on_order_delete on_order_replace
    on_trade reduce_order
process_unknown_order e tick unknown a f =
    let e' = touch e tick in
    let v : SameBook e e' = SameBook-touch e tick in
    let gone : (s : Stats) → find_order (record e' { stats = s }) tick.order_ref ≡ none =
      λ s. find_order-none (record e' { stats = s }) tick.order_ref (rw v.same_map unknown) in
    if_cases (SameBook e) (leb Config.symbols tick.symbol_idx) _ _
      (SameBook-stats e e _
        (record { same_slab = refl; same_map = refl; same_counts = λ s d. refl }))
      (dispatch_cases (SameBook e) e' tick (SameBook-stats e e' _ v) (λ h. absurd (ground arith))
        (rw (gone _, on_order_executed, reduce_order) (SameBook-stats e e' _ v))
        (rw (gone _, on_order_cancel, reduce_order) (SameBook-stats e e' _ v))
        (rw (gone _, on_order_delete) (SameBook-stats e e' _ v))
        (rw (gone _, on_order_replace) (SameBook-stats e e' _ v)) (SameBook-stats e e' _ v))

-- An add whose reference is already in the map changes no order and no level.
pub process_duplicate_add :
    (e : LobEngine) (tick : TickMsg) {entry : ℕ}
    → RefMap.lookup e.order_map tick.order_ref ≡ some entry
    → (tick.msg_type == b'A' || tick.msg_type == b'F') ≡ true
    → SameBook e (process_unlocked e tick)
unfolding process_unlocked touch reject level_count on_add_order
process_duplicate_add e tick present add = record {
  same_slab = ground arith;
  same_map = ground arith;
  same_counts = λ s d. ground arith;
}
