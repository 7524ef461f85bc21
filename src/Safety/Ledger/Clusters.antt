-- ===== src/Safety/Ledger/Clusters.antt =====
-- The probe paths of luv_safety.hpp's reconciliation ledger: what `register_order` adds, and what a
-- terminal `apply` loses.
use luv_flicker.Base.{
  ℕ, zero, suc, ◌+◌, ◌%◌, ◌^◌, ◌≡◌, ◌≢◌, ℤ, pos, ◌≤ℤ◌, true, false, none, some, Option-cases, ◌⊎◌,
  inl, inr, arith, update,
}
use luv_flicker.Safety.Ledger.{
  ReconciliationLedger, ExecutionReport, capacity, next_slot, hash, find_from, find,
  find_or_empty_from, find_or_empty, put_entry, register_order, clear_entry, apply_at, apply,
  contains,
}

-- A claimed slot is found.
find_from-claimed :
    (ids : ℕ → ℕ) (id n slot d : ℕ)
    → id ≢ 0
    → find_or_empty_from ids id n slot ≡ some d
    → find_from (update ids d id) id n slot ≡ some d
unfolding find_from find_or_empty_from
find_from-claimed ids id zero slot d nz e = ground arith
find_from-claimed ids id (suc n) slot d nz e =
    ground (arith, find_from-claimed ids id n (next_slot slot) d)

-- Filling an empty slot hides nothing that is found.
find_from-kept :
    (ids : ℕ → ℕ) (id q n slot d s : ℕ)
    → q ≢ 0
    → ids d ≡ 0
    → find_from ids q n slot ≡ some s
    → find_from (update ids d id) q n slot ≡ some s
unfolding find_from
find_from-kept ids id q zero slot d s nz h e = ground arith
find_from-kept ids id q (suc n) slot d s nz h e =
    ground (arith, find_from-kept ids id q n (next_slot slot) d s)

module _ (ids : ℕ → ℕ) (q n slot : ℕ) where
  find_from-here : ids slot ≡ q → find_from ids q (suc n) slot ≡ some slot
  unfolding find_from
  find_from-here h = ground arith

  find_from-behind :
      ids slot ≢ q
      → ids slot ≢ 0
      → ids (next_slot slot) ≡ q
      → find_from ids q (suc (suc n)) slot ≡ some (next_slot slot)
  unfolding find_from
  find_from-behind h k e = ground arith

  find_from-empty : ids slot ≡ 0 → q ≢ 0 → find_from ids q (suc n) slot ≡ none
  unfolding find_from
  find_from-empty h k = ground arith

contains-find :
    (l : ReconciliationLedger) (q : ℕ)
    → contains l q ≡ true
    → (s : ℕ) × (find l q ≡ some s) × (q ≢ 0)
unfolding contains
contains-find l q h = elim (Option-cases (find l q)) [
  | inl none_found ↦ absurd (ground arith)
  | inr (s, e) ↦ (s, e, ground arith)
]

find-contains :
    (l : ReconciliationLedger) (q : ℕ) {s : ℕ} → q ≢ 0 → find l q ≡ some s → contains l q ≡ true
unfolding contains
find-contains l q nz e = ground arith

-- After a successful `register_order` the ledger contains the new order and every order that it
-- contained before.
pub register_order-contains :
    (l : ReconciliationLedger) (id : ℕ) (quantity : ℤ) {l' : ReconciliationLedger} (q : ℕ)
    → register_order l id quantity ≡ (l', true)
    → (contains l q ≡ true) ⊎ (q ≡ id)
    → contains l' q ≡ true
unfolding register_order put_entry find find_or_empty
register_order-contains l id quantity {l'} q e old = elim (Option-cases (find_or_empty l id)) [
  | inl full ↦ absurd (ground arith)
  | inr (d, at) ↦
      let nz : id ≢ 0 = ground arith in
      let free : l.ids d ≡ 0 = ground arith in
      let ids : l'.ids ≡ update l.ids d id = ground arith in
      elim old [
        | inl known ↦
            let (s, there, some_id) = contains-find l q known in
            find-contains l' q {s = s} some_id
              (rw ids (find_from-kept l.ids id q capacity (hash q) d s some_id free there))
        | inr new ↦ rw new (
            find-contains l' id {s = d} nz
              (rw ids (find_from-claimed l.ids id capacity (hash id) d nz at)))
      ]
]

-- Two orders of one hash value stand behind one another. A report that ends the first one empties
-- its slot and moves nothing up, so the ledger no longer contains the second order, which is open.
pub apply-forgets :
    (l : ReconciliationLedger) (report : ExecutionReport) (other : ℕ)
    → report.order_id ≢ 0
    → other ≢ 0
    → hash other ≡ hash report.order_id
    → other ≢ report.order_id
    → l.ids (hash report.order_id) ≡ report.order_id
    → l.ids (next_slot (hash report.order_id)) ≡ other
    → report.terminal ≡ true
    → pos 1 ≤ℤ report.filled_quantity
    → report.filled_quantity ≤ℤ l.remaining (hash report.order_id)
    → (contains l other ≡ true)
      × ((apply l report).1 ≡ true)
      × (contains (apply l report).0 other ≡ false)
unfolding contains apply apply_at clear_entry put_entry find
apply-forgets l report other nz nz' same ne at behind terminal low high =
    let id = report.order_id in
    let first : find l id ≡ some (hash id) = find_from-here l.ids id 65535 (hash id) at in
    let second : find l other ≡ some (next_slot (hash id)) =
      rw same (find_from-behind l.ids other 65534 (hash id) (omega arith) (omega arith) behind) in
    let done = (apply l report).0 in
    let emptied : done.ids (hash id) ≡ 0 = ground arith in
    let lost : find done other ≡ none =
      rw same (find_from-empty done.ids other 65535 (hash id) emptied nz') in
    (ground arith, ground arith, ground arith)

find_or_empty_from-here :
    (ids : ℕ → ℕ) (q n slot : ℕ) → ids slot ≡ 0 → find_or_empty_from ids q (suc n) slot ≡ some slot
unfolding find_or_empty_from
find_or_empty_from-here ids q n slot h = ground arith

-- A new order whose slot is empty is registered there.
pub register_order-fresh :
    (l : ReconciliationLedger) (id : ℕ) (quantity : ℤ)
    → id ≢ 0
    → pos 1 ≤ℤ quantity
    → l.ids (hash id) ≡ 0
    → register_order l id quantity ≡ (
      record (put_entry l (hash id) id quantity) { open_orders = (l.open_orders + 1) % 2 ^ 32 },
      true,
    )
unfolding register_order find_or_empty
register_order-fresh l id quantity nz low free =
    let here = find_or_empty_from-here l.ids id 65535 (hash id) free in ground arith
