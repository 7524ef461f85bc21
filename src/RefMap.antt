-- ===== src/RefMap.antt =====
-- luv_lob.hpp, `OrderLocation` and `OrderRefMap`: the open-addressing table from order reference
-- numbers to places in the book. The two arrays behind `_keys` and `_values` are functions from
-- slot numbers; `mapped` says that `_keys` is not null, and what mmap answers is an argument of
-- `init`. `& kMask` is the remainder modulo the capacity, a power of two. A pointer to a value is
-- the number of its slot. Log calls are left out.
mod Tests
pub mod Probe
pub mod Laws
pub mod Insert
pub mod Remove
use luv_flicker.Base.{
  ℕ, zero, suc, ◌+◌, ◌-◌, ◌*◌, ◌/◌, ◌%◌, ◌^◌, ℤ, pos, pos_part, ltb_ℤ, leb_ℤ, Bool, true, false,
  not, ◌&&◌, ◌||◌, Option, none, some, bit_xor, ◌==◌, leb, ltb, if◌then◌else◌, update,
}
use luv_flicker.Arena.Config

pub record OrderLocation : Type 0 where
  pub symbol_idx : ℕ
  pub side : ℕ
  pub level_idx : ℕ
  pub slot_idx : ℤ

pub record OrderRefMap : Type 0 where
  pub mapped : Bool
  pub keys : ℕ → ℕ
  pub values : ℕ → OrderLocation
  pub count : ℕ

-- 512 * 1024 * 16
abbrev pub capacity : ℕ
capacity = Config.symbols * Config.levels_per_side * Config.max_orders_per_level

abbrev pub max_probe_length : ℕ
max_probe_length = 256

abbrev pub max_entries : ℕ
max_entries = (capacity * 80) / 100

abbrev pub empty_key : ℕ
empty_key = 0

abbrev pub tombstone : ℕ
tombstone = 2 ^ 64 - 1

abbrev zero_location : OrderLocation
zero_location = record { symbol_idx = 0; side = 0; level_idx = 0; slot_idx = pos 0 }

-- `key ^= key >> s` and `key *= m` on 64 bits; the last shift is 64 - log2(capacity) = 41.
pub hash : ℕ → ℕ
hash key =
    let a = bit_xor key (key / 2 ^ 30) in
    let b = (a * 0xBF58_476D_1CE4_E5B9) % 2 ^ 64 in
    let c = bit_xor b (b / 2 ^ 27) in
    let d = (c * 0x94D0_49BB_1331_11EB) % 2 ^ 64 in
    let e = bit_xor d (d / 2 ^ 31) in ((e * 0x9E37_79B9_7F4A_7C15) % 2 ^ 64) / 2 ^ 41

abbrev pub next_slot : ℕ → ℕ
next_slot slot = (slot + 1) % capacity

-- The null test and the two sentinel keys, which every operation refuses.
unfoldable pub refuses : OrderRefMap → ℕ → Bool
refuses m order_ref = not m.mapped || order_ref == empty_key || order_ref == tombstone

pub clear : OrderRefMap → OrderRefMap
clear m = record m { keys = λ i. empty_key; count = 0 }

-- A fresh anonymous mapping is zero-filled.
unfoldable pub init : OrderRefMap → Bool → OrderRefMap × Bool
unfolding clear
init m mmap_ok =
    if m.mapped
    then (m, false)
    else if not mmap_ok
    then (m, false)
    else (clear (record m { mapped = true; values = λ i. zero_location }), true)

pub teardown : OrderRefMap → OrderRefMap
teardown m = if not m.mapped then m else record m { mapped = false; count = 0 }

-- The probe loops, with the number of probes left as fuel.
unfoldable pub find_key : (ℕ → ℕ) → ℕ → ℕ → ℕ → Option ℕ
find_key keys order_ref zero slot = none
find_key keys order_ref (suc n) slot =
    let rest = find_key keys order_ref n (next_slot slot) in
    if keys slot == order_ref then some slot else if keys slot == empty_key then none else rest

-- How the loop of `insert` ends: at the key itself, at an empty slot (with the slot to write), or
-- at the probe limit (with the first tombstone that it passed).
pub data Probed : Type 0 where
  present vacant : ℕ → Probed
  exhausted : Option ℕ → Probed

abbrev pub or_slot : Option ℕ → ℕ → ℕ
or_slot none slot = slot
or_slot (some t) slot = t

abbrev pub note_tombstone : ℕ → ℕ → Option ℕ → Option ℕ
note_tombstone key slot none = if key == tombstone then some slot else none
note_tombstone key slot (some t) = some t

pub probe : (ℕ → ℕ) → ℕ → ℕ → ℕ → Option ℕ → Probed
probe keys order_ref zero slot tomb = exhausted tomb
probe keys order_ref (suc n) slot tomb =
    let rest = probe keys order_ref n (next_slot slot) (note_tombstone (keys slot) slot tomb) in
    if keys slot == order_ref
    then present slot
    else if keys slot == empty_key
    then vacant (or_slot tomb slot)
    else rest

-- The loop of `can_insert`.
pub can_probe : (ℕ → ℕ) → ℕ → ℕ → ℕ → Bool
can_probe keys order_ref zero slot = false
can_probe keys order_ref (suc n) slot =
    let rest = can_probe keys order_ref n (next_slot slot) in
    if keys slot == order_ref then false else if keys slot == empty_key then true else rest

unfoldable pub valid_place : OrderLocation → Bool
valid_place loc =
    ltb loc.symbol_idx Config.symbols
    && leb loc.side 1
    && ltb loc.level_idx Config.levels_per_side
    && leb_ℤ (pos 0) loc.slot_idx
    && ltb_ℤ loc.slot_idx (pos Config.max_orders_per_level)

-- Write a new entry and count it.
claim : OrderRefMap → ℕ → ℕ → OrderLocation → OrderRefMap
claim m slot order_ref loc = record m {
  keys = update m.keys slot order_ref;
  values = update m.values slot loc;
  count = (m.count + 1) % 2 ^ 32;
}

insert_probed : OrderRefMap → ℕ → OrderLocation → Probed → OrderRefMap × Bool
unfolding claim
insert_probed m order_ref loc (present slot) =
    (record m { values = update m.values slot loc }, true)
insert_probed m order_ref loc (vacant slot) =
    if leb max_entries m.count then (m, false) else (claim m slot order_ref loc, true)
insert_probed m order_ref loc (exhausted none) = (m, false)
insert_probed m order_ref loc (exhausted (some slot)) =
    if ltb m.count max_entries then (claim m slot order_ref loc, true) else (m, false)

pub insert : OrderRefMap → ℕ → OrderLocation → OrderRefMap × Bool
unfolding insert_probed
insert m order_ref loc =
    if refuses m order_ref || not (valid_place loc)
    then (m, false)
    else insert_probed m order_ref loc
        (probe m.keys order_ref max_probe_length (hash order_ref) none)

pub can_insert : OrderRefMap → ℕ → Bool
can_insert m order_ref =
    if refuses m order_ref
    then false
    else if leb max_entries m.count
    then false
    else can_probe m.keys order_ref max_probe_length (hash order_ref)

-- The slot of the entry that `lookup` points to.
unfoldable pub lookup : OrderRefMap → ℕ → Option ℕ
lookup m order_ref =
    if refuses m order_ref
    then none
    else find_key m.keys order_ref max_probe_length (hash order_ref)

-- What stands behind that pointer.
pub location : OrderRefMap → ℕ → Option OrderLocation
unfolding lookup
location m order_ref = elim (lookup m order_ref) [ none ↦ none | some slot ↦ some (m.values slot) ]

-- `--_count` on uint32_t.
remove_at : OrderRefMap → Option ℕ → OrderRefMap
remove_at m none = m
remove_at m (some slot) = record m {
  keys = update m.keys slot tombstone;
  count = (m.count + 2 ^ 32 - 1) % 2 ^ 32;
}

pub remove : OrderRefMap → ℕ → OrderRefMap
unfolding remove_at lookup
remove m order_ref = remove_at m (lookup m order_ref)

-- A write through the pointer that `lookup` returned.
pub store_location : OrderRefMap → ℕ → OrderLocation → OrderRefMap
store_location m slot loc = record m { values = update m.values slot loc }

-- `fixup_levels`, one entry; `direction` is +1 or -1, and the result is cast to uint16_t.
abbrev shifted_level : ℕ → Bool → ℕ
shifted_level level_idx down =
    if down then (level_idx + 1) % 2 ^ 16 else (level_idx + 2 ^ 16 - 1) % 2 ^ 16

pub fixup_levels : OrderRefMap → ℕ → ℕ → ℕ → Bool → OrderRefMap
fixup_levels m symbol_idx side from_level down = record m { values = fixed }
  where
    fixed : ℕ → OrderLocation
    fixed i =
        let loc = m.values i in
        if not (m.keys i == empty_key || m.keys i == tombstone)
          && ltb i capacity
          && loc.symbol_idx == symbol_idx
          && loc.side == side
          && leb from_level loc.level_idx
        then record loc { level_idx = shifted_level loc.level_idx down }
        else loc
