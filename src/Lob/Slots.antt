-- ===== src/Lob/Slots.antt =====
-- luv_lob.hpp, the slots of one price level: the doubly linked list by index, and deactivation.
-- The array `orders` has 16 slots; the model reads an inactive slot outside of it.
use luv_flicker.Base.{ℕ, zero, suc, pos, none, some, List, get_or, set}
use luv_flicker.Arena.Config
use luv_flicker.Arena.{OrderSlot, PriceLevel, fresh_slot}

abbrev pub slot : PriceLevel → ℕ → OrderSlot
slot lvl i = get_or lvl.orders i fresh_slot

abbrev pub put_slot : PriceLevel → ℕ → OrderSlot → PriceLevel
put_slot lvl i s = record lvl { orders = set lvl.orders i s }

-- `while (lvl.orders[cur].next_idx != -1) cur = lvl.orders[cur].next_idx;`, with the number of hops
-- left as fuel.
unfoldable pub tail_from : ℕ → List OrderSlot → ℕ → ℕ
tail_from zero orders cur = cur
tail_from (suc n) orders cur = elim (get_or orders cur fresh_slot).next_idx [
  | none ↦ cur
  | some next ↦ tail_from n orders next
]

link_first : PriceLevel → ℕ → PriceLevel
link_first lvl i = record lvl {
  orders = set lvl.orders i (record (slot lvl i) { prev_idx = none });
  head_idx = some i;
}

link_after : PriceLevel → ℕ → ℕ → PriceLevel
link_after lvl i cur =
    let l = put_slot lvl cur (record (slot lvl cur) { next_idx = some i }) in
    put_slot l i (record (slot l i) { prev_idx = some cur })

-- A level has 16 slots, so 16 hops reach the tail.
unfoldable pub link_slot : PriceLevel → ℕ → PriceLevel
unfolding link_first link_after tail_from
link_slot lvl i =
    let l = put_slot lvl i (record (slot lvl i) { next_idx = none }) in
    elim l.head_idx [
      | none ↦ link_first l i
      | some head ↦ link_after l i (tail_from Config.max_orders_per_level l.orders head)
    ]

unlink_before : PriceLevel → ℕ → PriceLevel
unlink_before lvl i = elim (slot lvl i).prev_idx [
  | none ↦ record lvl { head_idx = (slot lvl i).next_idx }
  | some p ↦ put_slot lvl p (record (slot lvl p) { next_idx = (slot lvl i).next_idx })
]

unlink_behind : PriceLevel → ℕ → PriceLevel
unlink_behind lvl i = elim (slot lvl i).next_idx [
  | none ↦ lvl
  | some n ↦ put_slot lvl n (record (slot lvl n) { prev_idx = (slot lvl i).prev_idx })
]

unfoldable pub unlink_slot : PriceLevel → ℕ → PriceLevel
unfolding unlink_before unlink_behind
unlink_slot lvl i =
    let l = unlink_behind (unlink_before lvl i) i in
    put_slot l i (record (slot l i) { prev_idx = none; next_idx = none })

unfoldable pub deactivate_slot : OrderSlot → OrderSlot
deactivate_slot s = record s { flags = 0; order_id = 0; qty = pos 0 }
