-- ===== src/Safety/Ledger.antt =====
-- luv_safety.hpp, `ReconciliationLedger`: an open-addressing table of open orders, of the default
-- capacity. The entries are functions from slots; a pointer to an entry is its slot.
pub mod Clusters
use luv_flicker.Base.{
  ℕ, zero, suc, ◌+◌, ◌-◌, ◌*◌, ◌/◌, ◌%◌, ◌^◌, ℤ, pos, ◌-ℤ◌, ltb_ℤ, leb_ℤ, eqb_ℤ, bit_xor, Bool,
  true, false, not, ◌&&◌, ◌||◌, Option, none, some, if◌then◌else◌, ◌==◌, update,
}

abbrev pub capacity : ℕ
capacity = 2 ^ 16

pub record ExecutionReport : Type 0 where
  pub order_id : ℕ
  pub filled_quantity : ℤ
  pub terminal : Bool

-- `ids` and `remaining` are the two members of the entries.
pub record ReconciliationLedger : Type 0 where
  pub ids : ℕ → ℕ
  pub remaining : ℕ → ℤ
  pub open_orders : ℕ
  pub mismatches : ℕ

-- `key ^= key >> n`, and a product of 64 bits.
abbrev fold : ℕ → ℕ → ℕ
fold key n = bit_xor key (key / 2 ^ n)

unfoldable pub hash : ℕ → ℕ
hash key =
    let a = (fold key 30 * 0xBF58_476D_1CE4_E5B9) % 2 ^ 64 in
    let b = (fold a 27 * 0x94D0_49BB_1331_11EB) % 2 ^ 64 in fold b 31 % capacity

abbrev pub next_slot : ℕ → ℕ
next_slot slot = (slot + 1) % capacity

-- The loop of `find`, with the probes left as fuel.
unfoldable pub find_from : (ℕ → ℕ) → ℕ → ℕ → ℕ → Option ℕ
find_from ids order_id zero slot = none
find_from ids order_id (suc n) slot =
    let rest = find_from ids order_id n (next_slot slot) in
    if ids slot == order_id then some slot else if ids slot == 0 then none else rest

unfoldable pub find : ReconciliationLedger → ℕ → Option ℕ
find l order_id = find_from l.ids order_id capacity (hash order_id)

-- The loop of `find_or_empty`.
unfoldable pub find_or_empty_from : (ℕ → ℕ) → ℕ → ℕ → ℕ → Option ℕ
find_or_empty_from ids order_id zero slot = none
find_or_empty_from ids order_id (suc n) slot =
    let rest = find_or_empty_from ids order_id n (next_slot slot) in
    if ids slot == order_id || ids slot == 0 then some slot else rest

unfoldable pub find_or_empty : ReconciliationLedger → ℕ → Option ℕ
find_or_empty l order_id = find_or_empty_from l.ids order_id capacity (hash order_id)

unfoldable pub put_entry : ReconciliationLedger → ℕ → ℕ → ℤ → ReconciliationLedger
put_entry l slot order_id remaining = record l {
  ids = update l.ids slot order_id;
  remaining = update l.remaining slot remaining;
}

unfoldable pub register_order : ReconciliationLedger → ℕ → ℤ → ReconciliationLedger × Bool
unfolding put_entry
register_order l order_id quantity =
    if order_id == 0 || leb_ℤ quantity (pos 0)
    then (l, false)
    else elim (find_or_empty l order_id) [
      | none ↦ (l, false)
      | some slot ↦ if not (l.ids slot == 0) then (l, false) else (
        record (put_entry l slot order_id quantity) { open_orders = (l.open_orders + 1) % 2 ^ 32 },
        true,
      )
    ]

unfoldable pub replace : ReconciliationLedger → ℕ → ℤ → ReconciliationLedger × Bool
replace l order_id new_quantity =
    if order_id == 0 || leb_ℤ new_quantity (pos 0) then (l, false) else elim (find l order_id) [
      | none ↦ (l, false)
      | some slot ↦ (record l { remaining = update l.remaining slot new_quantity }, true)
    ]

-- `entry->order_id = 0; entry->remaining = 0; --_open;`
unfoldable pub clear_entry : ReconciliationLedger → ℕ → ReconciliationLedger
unfolding put_entry
clear_entry l slot = record (put_entry l slot 0 (pos 0)) {
  open_orders = (l.open_orders + 2 ^ 32 - 1) % 2 ^ 32;
}

unfoldable pub apply_at : ReconciliationLedger → ExecutionReport → ℕ → ReconciliationLedger
unfolding clear_entry
apply_at l report slot =
    let left = l.remaining slot -ℤ report.filled_quantity in
    let filled = record l { remaining = update l.remaining slot left } in
    if report.terminal || eqb_ℤ left (pos 0) then clear_entry filled slot else filled

unfoldable pub apply : ReconciliationLedger → ExecutionReport → ReconciliationLedger × Bool
unfolding apply_at
apply l report =
    let mismatch = record l { mismatches = (l.mismatches + 1) % 2 ^ 64 } in
    if report.order_id == 0 || leb_ℤ report.filled_quantity (pos 0)
    then (l, false)
    else elim (find l report.order_id) [
      | none ↦ (mismatch, false)
      | some slot ↦
          if ltb_ℤ (l.remaining slot) report.filled_quantity
          then (mismatch, false)
          else (apply_at l report slot, true)
    ]

unfoldable pub contains : ReconciliationLedger → ℕ → Bool
contains l order_id =
    if order_id == 0 then false else elim (find l order_id) [ none ↦ false | some slot ↦ true ]

-- The loop of `reinsert_cluster`; the cluster is no longer than the table.
unfoldable pub reinsert_from : ℕ → ReconciliationLedger → ℕ → ReconciliationLedger
unfolding put_entry
reinsert_from zero l slot = l
reinsert_from (suc n) l slot =
    let cleared = put_entry l slot 0 (pos 0) in
    let moved = λ (d : ℕ). put_entry cleared d (l.ids slot) (l.remaining slot) in
    elim (l.ids slot == 0) [
      | true ↦ l
      | false ↦ elim (find_or_empty cleared (l.ids slot)) [
        | none ↦ cleared
        | some d ↦ reinsert_from n (moved d) (next_slot slot)
      ]
    ]

unfoldable pub cancel : ReconciliationLedger → ℕ → ReconciliationLedger × Bool
unfolding clear_entry
cancel l order_id = elim (find l order_id) [
  | none ↦ (l, false)
  | some slot ↦ (reinsert_from capacity (clear_entry l slot) (next_slot slot), true)
]
