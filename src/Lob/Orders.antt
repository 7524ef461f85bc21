-- ===== src/Lob/Orders.antt =====
-- luv_lob.hpp, what the message handlers of `LOBEngine` share: finding an order, taking quantity or
-- the whole order out of its level, and putting an order on a level. The two halves of
-- `on_order_replace` are the bodies that delete and add repeat, written once here.
use luv_flicker.Base.{
  ℕ, ◌+◌, ◌%◌, ◌^◌, ℤ, pos, pos_part, ◌+ℤ◌, ◌-ℤ◌, ltb_ℤ, leb_ℤ, Bool, ◌&&◌, ◌||◌, Option, none,
  some, if◌then◌else◌, ◌==◌, leb, ltb, bit_and,
}
use luv_flicker.Arena.Config
use luv_flicker.Numeric.{checked_add}
use luv_flicker.Arena.{PriceLevel, TickMsg, alloc_slot, is_active, flag_active, flag_bid}
use luv_flicker.RefMap
use luv_flicker.RefMap.{OrderLocation}
use luv_flicker.Lob.State.{LobEngine, level, set_level, level_count, reject}
use luv_flicker.Lob.Slots.{slot, put_slot, link_slot, unlink_slot, deactivate_slot}
use luv_flicker.Lob.Levels.{find_level, insert_level_impl, remove_level_if_empty}

unfoldable pub clamped_qty : ℤ → ℤ → ℤ
clamped_qty requested available =
    if leb_ℤ requested (pos 0) || leb_ℤ available (pos 0)
    then pos 0
    else if ltb_ℤ requested available
    then requested
    else available

unfoldable pub valid_location : LobEngine → ℕ → OrderLocation → Bool
valid_location e order_ref loc =
    let lvl = level e loc.symbol_idx loc.side loc.level_idx in
    let s = slot lvl (pos_part loc.slot_idx) in
    ltb loc.symbol_idx Config.symbols
    && leb loc.side 1
    && ltb loc.level_idx (level_count e loc.symbol_idx loc.side)
    && leb_ℤ (pos 0) loc.slot_idx
    && ltb_ℤ loc.slot_idx (pos Config.max_orders_per_level)
    && is_active s
    && s.order_id == order_ref
    && leb_ℤ (pos 0) s.qty
    && leb_ℤ (pos 0) lvl.total_qty
    && ltb_ℤ (pos 0) lvl.order_count

-- `lookup` and `valid_location` together, as every handler begins.
unfoldable pub find_order : LobEngine → ℕ → Option OrderLocation
find_order e order_ref = elim (RefMap.location e.order_map order_ref) [
  | none ↦ none
  | some loc ↦ if valid_location e order_ref loc then some loc else none
]

-- Unlink, deactivate and uncount an order, drop its reference, and close its level if it is empty.
unfoldable pub drop_slot : PriceLevel → ℕ → PriceLevel
drop_slot lvl i = let l = unlink_slot lvl i in put_slot l i (deactivate_slot (slot l i))

unfoldable pub take_down : LobEngine → ℕ → OrderLocation → PriceLevel → LobEngine
unfolding drop_slot
take_down e order_ref loc lvl =
    let l = drop_slot lvl (pos_part loc.slot_idx) in
    let l' = record l { order_count = l.order_count -ℤ pos 1 } in
    let e' = set_level e loc.symbol_idx loc.side loc.level_idx l' in
    remove_level_if_empty (record e' { order_map = RefMap.remove e'.order_map order_ref })
      loc.symbol_idx loc.side loc.level_idx

-- The common body of execute and cancel.
unfoldable pub reduce_order : LobEngine → TickMsg → LobEngine
reduce_order e tick = elim (find_order e tick.order_ref) [
  | none ↦ e
  | some loc ↦
      let i = pos_part loc.slot_idx in
      let lvl = level e loc.symbol_idx loc.side loc.level_idx in
      let delta = clamped_qty tick.qty (slot lvl i).qty in
      let left = (slot lvl i).qty -ℤ delta in
      let lvl' = record (put_slot lvl i (record (slot lvl i) { qty = left })) {
        total_qty = lvl.total_qty -ℤ delta;
      } in
      if leb_ℤ left (pos 0)
      then take_down e tick.order_ref loc lvl'
      else set_level e loc.symbol_idx loc.side loc.level_idx lvl'
]

-- The body of delete, on an order that was found.
unfoldable pub delete_order : LobEngine → ℕ → OrderLocation → LobEngine
delete_order e order_ref loc =
    let lvl = level e loc.symbol_idx loc.side loc.level_idx in
    let s = slot lvl (pos_part loc.slot_idx) in
    take_down e order_ref loc
      (record lvl { total_qty = lvl.total_qty -ℤ clamped_qty s.qty lvl.total_qty })

-- How the body of add ends.
pub data Placed : Type 0 where
  placed depth_reached level_full qty_overflow map_refused : Placed

-- An order in a free slot of a level: fill the slot and link it at the tail.
unfoldable pub fill_slot : PriceLevel → ℕ → ℕ → ℕ → ℤ → PriceLevel
fill_slot lvl i side order_ref qty =
    link_slot
      (put_slot lvl i (record (slot lvl i) {
        order_id = order_ref;
        qty = qty;
        flags = if side == 0 then flag_active + flag_bid else flag_active;
      }))
      i

-- The roll-back of a failed add.
unfoldable pub withdraw : LobEngine → ℕ → ℕ → ℕ → ℕ → PriceLevel → LobEngine
withdraw e sym side li i lvl =
    remove_level_if_empty (set_level e sym side li (drop_slot lvl i)) sym side li

unfoldable pub register_order : LobEngine → ℕ → ℕ → ℕ → ℕ → ℕ → ℤ → PriceLevel → LobEngine × Placed
register_order e sym side li i order_ref qty lvl =
    let loc : OrderLocation = record {
      symbol_idx = sym;
      side = side;
      level_idx = li % 2 ^ 16;
      slot_idx = pos i;
    } in
    let (m, inserted) = RefMap.insert e.order_map order_ref loc in
    let dropped = drop_slot lvl i in
    let undone = record dropped {
      total_qty = dropped.total_qty -ℤ qty;
      order_count = dropped.order_count -ℤ pos 1;
    } in
    if inserted
    then (record (set_level e sym side li lvl) { order_map = m }, placed)
    else (remove_level_if_empty (set_level e sym side li undone) sym side li, map_refused)

unfoldable pub place_slot : LobEngine → ℕ → ℕ → ℕ → ℕ → ℕ → ℤ → LobEngine × Placed
place_slot e sym side li i order_ref qty =
    let lvl = fill_slot (level e sym side li) i side order_ref qty in
    elim (checked_add lvl.total_qty qty) [
      | none ↦ (withdraw e sym side li i lvl, qty_overflow)
      | some total ↦
          register_order e sym side li i order_ref qty
            (record lvl { total_qty = total; order_count = lvl.order_count +ℤ pos 1 })
    ]

unfoldable pub place_at : LobEngine → ℕ → ℕ → ℕ → ℕ → ℤ → LobEngine × Placed
place_at e sym side li order_ref qty = elim (alloc_slot (level e sym side li)) [
  | none ↦ (e, level_full)
  | some i ↦ place_slot e sym side li i order_ref qty
]

unfoldable pub find_or_insert_level : LobEngine → ℕ → ℕ → ℤ → LobEngine × Option ℕ
find_or_insert_level e sym side price = elim (find_level e sym side price) [
  | none ↦ insert_level_impl e sym side price
  | some li ↦ (e, some li)
]

unfoldable pub place_order : LobEngine → ℕ → ℕ → ℤ → ℤ → ℕ → LobEngine × Placed
place_order e sym side price qty order_ref =
    let (e', found) = find_or_insert_level e sym side price in
    elim found [ none ↦ (e', depth_reached) | some li ↦ place_at e' sym side li order_ref qty ]

-- `(tick.flags & tick_flags::kBuy) ? 0 : 1`
unfoldable pub tick_side : TickMsg → ℕ
tick_side tick = if bit_and tick.flags 1 == 0 then 1 else 0

-- The stages of add and replace that count a rejection.
abbrev pub count_add : LobEngine × Placed → LobEngine
count_add (e, placed) = e
count_add (e, p) = reject e

-- In replace the last stage counts none.
abbrev pub count_replace : LobEngine × Placed → LobEngine
count_replace (e, placed) = e
count_replace (e, map_refused) = e
count_replace (e, p) = reject e
