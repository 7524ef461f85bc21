-- ===== src/Lob/Levels.antt =====
-- luv_lob.hpp, the price levels of one side of one symbol: search, insertion, removal, and the
-- repair of the order map after a shift. Side 0 is the bids, by falling price; any other side is
-- the asks, by rising price.
pub mod Search
use luv_flicker.Base.{
  ℕ, zero, suc, ◌+◌, ◌-◌, ◌/◌, ◌%◌, ◌^◌, ◌≤◌, ℤ, pos, ltb_ℤ, eqb_ℤ, Bool, not, ◌&&◌, Option, none,
  some, List, [], ◌∷◌, if◌then◌else◌, ◌==◌, leb, ltb,
}
use luv_flicker.Arena.Config
use luv_flicker.Arena.{OrderSlot, PriceLevel, is_active, level_index, reset}
use luv_flicker.RefMap
use luv_flicker.RefMap.{OrderRefMap}
use luv_flicker.Lob.State.{LobEngine, level, set_level, level_count, set_level_count}

-- The price `p` stands before the price `q`.
unfoldable pub ahead : ℕ → ℤ → ℤ → Bool
ahead side p q = if side == 0 then ltb_ℤ q p else ltb_ℤ p q

-- The binary search of `find_level`, over the prices by depth. `hi` is the source's `high + 1`, so
-- that its -1 is no special case; the fuel is the number of levels.
unfoldable pub search_level : (ℕ → ℤ) → ℕ → ℤ → ℕ → ℕ → ℕ → Option ℕ
search_level prices side price zero lo hi = none
search_level prices side price (suc n) lo hi =
    let mid = lo + (hi - 1 - lo) / 2 in
    let left = search_level prices side price n lo mid in
    let right = search_level prices side price n (mid + 1) hi in
    if leb hi lo
    then none
    else if eqb_ℤ (prices mid) price
    then some mid
    else if ahead side price (prices mid)
    then left
    else right

unfoldable pub find_level : LobEngine → ℕ → ℕ → ℤ → Option ℕ
find_level e sym side price =
    let count = level_count e sym side in
    search_level (λ i. (level e sym side i).price) side price count 0 count

-- One active slot: rewrite the place that the order map holds for it.
unfoldable pub refresh_slot : OrderRefMap → ℕ → ℕ → ℕ → ℕ → OrderSlot → OrderRefMap
refresh_slot m sym side level_idx slot_idx o =
    if not (is_active o) then m else elim (RefMap.lookup m o.order_id) [
      | none ↦ m
      | some entry ↦
          RefMap.store_location m entry (record {
            symbol_idx = sym;
            side = side;
            level_idx = level_idx;
            slot_idx = pos slot_idx;
          })
    ]

unfoldable pub refresh_slots : OrderRefMap → ℕ → ℕ → ℕ → ℕ → List OrderSlot → OrderRefMap
refresh_slots m sym side level_idx slot_idx [] = m
refresh_slots m sym side level_idx slot_idx (o ∷ os) =
    refresh_slots (refresh_slot m sym side level_idx slot_idx o) sym side level_idx (suc slot_idx)
      os

-- The levels from `level_idx` on, `n` of them.
unfoldable pub refresh_levels : (ℕ → PriceLevel) → OrderRefMap → ℕ → ℕ → ℕ → ℕ → OrderRefMap
refresh_levels lob m sym side zero level_idx = m
refresh_levels lob m sym side (suc n) level_idx =
    refresh_levels lob
      (refresh_slots m sym side level_idx 0 (lob (level_index sym side level_idx)).orders) sym side
      n (suc level_idx)

unfoldable pub refresh_level_locations : LobEngine → ℕ → ℕ → ℕ → ℕ → LobEngine
refresh_level_locations e sym side first last = if ltb last first then e else record e {
  order_map = refresh_levels e.lob_flat e.order_map sym side (last + 1 - first) first;
}

-- `memmove(base + to, base + from, n * sizeof(PriceLevel))`
unfoldable pub move_levels : (ℕ → PriceLevel) → ℕ → ℕ → ℕ → ℕ → PriceLevel
move_levels lob to from n i = if leb to i && ltb i (to + n) then lob (from + (i - to)) else lob i

unfoldable pub shift_levels : LobEngine → ℕ → ℕ → ℕ → ℕ → ℕ → LobEngine
shift_levels e sym side to from n = record e {
  lob_flat = move_levels e.lob_flat (level_index sym side 0 + to) (level_index sym side 0 + from) n;
}

unfoldable pub remove_level_if_empty : LobEngine → ℕ → ℕ → ℕ → LobEngine
remove_level_if_empty e sym side lvl_idx =
    let count = level_count e sym side in
    let last = count - 1 in
    let shifted =
      refresh_level_locations (shift_levels e sym side lvl_idx (lvl_idx + 1) (last - lvl_idx)) sym
        side lvl_idx (last - 1) in
    let closed = if ltb lvl_idx last then shifted else e in
    if ltb_ℤ (pos 0) (level e sym side lvl_idx).order_count
    then e
    else if count == 0
    then e
    else set_level_count (set_level closed sym side last (reset (level closed sym side last))) sym
        side last

-- The loop of `insert_level_impl`: the first of the `n` levels from `i` on that the price stands
-- before, or the end.
unfoldable pub insert_pos : (ℕ → ℤ) → ℕ → ℤ → ℕ → ℕ → ℕ
insert_pos prices side price zero i = i
insert_pos prices side price (suc n) i =
    let rest = insert_pos prices side price n (suc i) in
    if ahead side price (prices i) then i else rest

unfoldable pub insert_level_impl : LobEngine → ℕ → ℕ → ℤ → LobEngine × Option ℕ
insert_level_impl e sym side price =
    let count = level_count e sym side in
    let at = insert_pos (λ i. (level e sym side i).price) side price count 0 in
    let shifted =
      refresh_level_locations (shift_levels e sym side (at + 1) at (count - at)) sym side (at + 1)
        count in
    let opened = if ltb at count then shifted else e in
    let new_level = record (reset (level opened sym side at)) { price = price } in
    if leb Config.levels_per_side count then (e, none) else (
      set_level_count (set_level opened sym side at new_level) sym side ((count + 1) % 2 ^ 16),
      some at,
    )
