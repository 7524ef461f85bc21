-- ===== src/Arena.antt =====
-- luv_arena.hpp: the sizes, the plain structs that the arena's slabs hold, and their methods.
-- An index of -1 (`next_idx`, `prev_idx`, `head_idx`, the result of `alloc_slot`) is `none`.
-- Padding fields are left out. A fixed array of 16 slots is a list.
mod Tests
pub mod Config
pub mod Ring
pub mod Orders
use luv_flicker.Base.{
  ℕ, suc, ◌+◌, ◌-◌, ◌*◌, ◌%◌, ◌^◌, ℤ, pos, Bool, not, Option, none, some, List, [], ◌∷◌, replicate,
  bit_and, ◌==◌, if◌then◌else◌, ◌&&◌, leb,
}

pub record OrderSlot : Type 0 where
  pub order_id : ℕ
  pub qty : ℤ
  pub flags : ℕ
  pub next_idx : Option ℕ
  pub prev_idx : Option ℕ

abbrev pub flag_bid : ℕ
flag_bid = 1

abbrev pub flag_active : ℕ
flag_active = 2

-- `OrderSlot{}`
abbrev pub fresh_slot : OrderSlot
fresh_slot = record { order_id = 0; qty = pos 0; flags = 0; next_idx = none; prev_idx = none }

unfoldable pub is_active : OrderSlot → Bool
is_active slot = not (bit_and slot.flags flag_active == 0)

unfoldable pub is_bid : OrderSlot → Bool
is_bid slot = not (bit_and slot.flags flag_bid == 0)

pub record PriceLevel : Type 0 where
  pub orders : List OrderSlot
  pub price : ℤ
  pub total_qty : ℤ
  pub order_count : ℤ
  pub head_idx : Option ℕ

unfoldable pub reset : PriceLevel → PriceLevel
reset level = record {
  orders = replicate Config.max_orders_per_level fresh_slot;
  price = pos 0;
  total_qty = pos 0;
  order_count = pos 0;
  head_idx = none;
}

-- The loop over the slots, from slot `i` on.
unfoldable pub free_from : ℕ → List OrderSlot → Option ℕ
free_from i [] = none
free_from i (o ∷ os) = if not (is_active o) then some i else free_from (suc i) os

unfoldable pub alloc_slot : PriceLevel → Option ℕ
unfolding free_from
alloc_slot level = free_from 0 level.orders

pub record TickMsg : Type 0 where
  pub msg_type : ℕ
  pub flags : ℕ
  pub symbol_idx : ℕ
  pub timestamp : ℕ
  pub price : ℤ
  pub qty : ℤ
  pub order_ref : ℕ
  pub match_num : ℕ

-- `TickMsg{}`, which is also what `memset(&out, 0, sizeof(TickMsg))` leaves.
abbrev pub zero_tick : TickMsg
zero_tick = record {
  msg_type = 0;
  flags = 0;
  symbol_idx = 0;
  timestamp = 0;
  price = pos 0;
  qty = pos 0;
  order_ref = 0;
  match_num = 0;
}

-- The level that the arena's `memset` to zero leaves: here -1 is not the index, 0 is.
abbrev pub zeroed_level : PriceLevel
zeroed_level = record {
  orders =
      replicate Config.max_orders_per_level
        (record { order_id = 0; qty = pos 0; flags = 0; next_idx = some 0; prev_idx = some 0 });
  price = pos 0;
  total_qty = pos 0;
  order_count = pos 0;
  head_idx = some 0;
}

-- `Arena::level`: the flat index of (symbol, side, depth).
unfoldable pub level_index : ℕ → ℕ → ℕ → ℕ
level_index symbol side depth = (symbol * 2 + side) * Config.levels_per_side + depth

-- `can_align_up` and `align_up`; `~(align - 1)` is taken within 64 bits.
unfoldable pub can_align_up : ℕ → ℕ → Bool
can_align_up n align =
    not (align == 0) && bit_and align (align - 1) == 0 && leb n (2 ^ 64 - 1 - (align - 1))

unfoldable pub align_up : ℕ → ℕ → ℕ
align_up n align = bit_and ((n + align - 1) % 2 ^ 64) (2 ^ 64 - 1 - (align - 1))
