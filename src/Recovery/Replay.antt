-- ===== src/Recovery/Replay.antt =====
-- What the log of luv_recovery.hpp gives back, and what a failed sync does to it.
use mathlib.Core.List.{append_assoc}
use luv_flicker.Base.{
  ℕ, suc, ◌+◌, ◌%◌, ◌^◌, ◌≡◌, ◌≢◌, pos, ◌≤ℤ◌, Bool, true, false, List, [], ◌∷◌, ◌++◌, none, some,
  if◌then◌else◌, ◌==◌, length, arith, refl, Bool-cases, Option-cases, inl, inr, sym, ◌∙◌,
}
use luv_flicker.Recovery.{
  RecoveryEvent, RecoveryRecord, RecoveredOrder, RecoveryLedger, record_magic, record_version,
  checksum, record_bytes, bare_record, make_record, append_and_flush, apply, valid_record,
  replay_from, replay,
}

-- The log is open, and its next number is the number of its records.
pub record IsCurrent (l : RecoveryLedger) : Type 0 where
  pub opened : l.is_open ≡ true
  pub counted : l.sequence ≡ length l.file

same_checksum :
    (r : RecoveryRecord) (c : ℕ) → checksum (record r { stored_checksum = c }) ≡ checksum r
unfolding checksum record_bytes
same_checksum r c = refl

==_self : (n : ℕ) → (n == n) ≡ true
==_self n = ground arith

make_record-checksum :
    (n : ℕ) (e : RecoveryEvent) → checksum (make_record n e) ≡ (make_record n e).stored_checksum
unfolding make_record
make_record-checksum n e = same_checksum (bare_record n e) (checksum (bare_record n e))

made :
    (n : ℕ) (e : RecoveryEvent)
    → let r = make_record n e in
      (r.magic ≡ record_magic) × (r.version ≡ record_version) × (r.sequence ≡ n)
unfolding make_record bare_record
made n e = (refl, refl, refl)

-- A record that was made at its place is valid there, and nowhere else.
make_record-valid : (n : ℕ) (e : RecoveryEvent) → valid_record n (make_record n e) ≡ true
unfolding valid_record
make_record-valid n e = let (m, v, s) = made n e in let c = make_record-checksum n e in ground arith

make_record-elsewhere :
    (n k : ℕ) (e : RecoveryEvent) → n ≢ k → valid_record k (make_record n e) ≡ false
unfolding valid_record
make_record-elsewhere n k e h = let (m, v, s) = made n e in rw (m, v, s) (ground arith)

module _ (capacity n : ℕ) (orders : List RecoveredOrder) (r : RecoveryRecord)
    (rs : List RecoveryRecord) where
  -- One step of the loop, and its two ways to fail.
  replay_from-step :
      {orders' : List RecoveredOrder}
      → valid_record n r ≡ true
      → apply r capacity orders ≡ some orders'
      → replay_from capacity n orders (r ∷ rs) ≡ replay_from capacity (n + 1) orders' rs
  unfolding replay_from
  replay_from-step v a = rw (v, a, replay_from) refl

  replay_from-invalid : valid_record n r ≡ false → replay_from capacity n orders (r ∷ rs) ≡ none
  unfolding replay_from
  replay_from-invalid v = rw (v, replay_from) refl

  replay_from-refused :
      valid_record n r ≡ true
      → apply r capacity orders ≡ none
      → replay_from capacity n orders (r ∷ rs) ≡ none
  unfolding replay_from
  replay_from-refused v a = rw (v, a, replay_from) refl

replay_from-done :
    (capacity n : ℕ) (orders : List RecoveredOrder) → replay_from capacity n orders [] ≡ some orders
unfolding replay_from
replay_from-done capacity n orders = refl

-- Records that are replayed one behind the other.
replay_from-append :
    (capacity n : ℕ) (orders orders' : List RecoveredOrder) (rs ts : List RecoveryRecord)
    → replay_from capacity n orders rs ≡ some orders'
    → replay_from capacity n orders (rs ++ ts) ≡ replay_from capacity (n + length rs) orders' ts
replay_from-append capacity n orders orders' [] ts e =
    let same : orders ≡ orders' = ground (arith, replay_from-done capacity n orders) in
    let here : n + 0 ≡ n = omega arith in rw (same, here) refl
replay_from-append capacity n orders orders' (r ∷ rs) ts e = elim (Bool-cases (valid_record n r)) [
  | inr bad ↦ absurd (ground (arith, replay_from-invalid capacity n orders r rs bad))
  | inl good ↦ elim (Option-cases (apply r capacity orders)) [
    | inl refused ↦ absurd (ground (arith, replay_from-refused capacity n orders r rs good refused))
    | inr (next, applied) ↦
        let moved = replay_from-step capacity n orders r rs good applied in
        let along : n + suc (length rs) ≡ n + 1 + length rs = omega arith in
        rw (replay_from-step capacity n orders r (rs ++ ts) good applied, along)
          (replay_from-append capacity (n + 1) next orders' rs ts (sym moved ∙ e))
  ]
]

replay-opened :
    (l : RecoveryLedger) (capacity : ℕ)
    → l.is_open ≡ true
    → (capacity == 0) ≡ false
    → replay l capacity ≡ replay_from capacity 0 [] l.file
unfolding replay
replay-opened l capacity o c = rw (o, c, replay) refl

replay-some :
    (l : RecoveryLedger) (capacity : ℕ) {orders : List RecoveredOrder}
    → replay l capacity ≡ some orders
    → (capacity == 0) ≡ false
unfolding replay
replay-some l capacity e = ground arith

-- A record behind a log that replays, made for a place `k`: it is applied at its place, and refused
-- elsewhere.
one_more :
    (capacity n k : ℕ) (orders : List RecoveredOrder) (e : RecoveryEvent) (rs : List RecoveryRecord)
    → n ≢ k
    → replay_from capacity n orders (make_record k e ∷ rs) ≡ none
one_more capacity n k orders e rs h =
    replay_from-invalid capacity n orders (make_record k e) rs
      (make_record-elsewhere k n e (λ s. h (sym s)))

last_record :
    (capacity n : ℕ) (orders : List RecoveredOrder) (e : RecoveryEvent)
    → replay_from capacity n orders (make_record n e ∷ []) ≡ apply (make_record n e) capacity orders
last_record capacity n orders e =
    let r = make_record n e in
    let v = make_record-valid n e in
    elim (Option-cases (apply r capacity orders)) [
      | inl refused ↦ replay_from-refused capacity n orders r [] v refused ∙ sym refused
      | inr (orders', applied) ↦
          replay_from-step capacity n orders r [] v applied
          ∙ replay_from-done capacity (n + 1) orders'
          ∙ sym applied
    ]

twice_unreadable :
    (capacity n : ℕ) (orders : List RecoveredOrder) (e e' : RecoveryEvent)
    → replay_from capacity n orders (make_record n e ∷ make_record n e' ∷ []) ≡ none
twice_unreadable capacity n orders e e' =
    let r = make_record n e in
    let v = make_record-valid n e in
    elim (Option-cases (apply r capacity orders)) [
      | inl refused ↦ replay_from-refused capacity n orders r (make_record n e' ∷ []) v refused
      | inr (orders', applied) ↦
          replay_from-step capacity n orders r (make_record n e' ∷ []) v applied
          ∙ one_more capacity (n + 1) n orders' e' [] (omega arith)
    ]

abbrev longer : RecoveryLedger → RecoveryEvent → RecoveryLedger
longer l e = record l { file = l.file ++ (make_record l.sequence e ∷ []) }

append_and_flush-accepted :
    (l : RecoveryLedger) (e : RecoveryEvent) (synced : Bool)
    → l.is_open ≡ true
    → e.order_id ≢ 0
    → pos 1 ≤ℤ e.quantity
    → append_and_flush l e true synced ≡ (
        if synced
        then (record (longer l e) { sequence = (l.sequence + 1) % 2 ^ 64 }, true)
        else (longer l e, false))
unfolding append_and_flush
append_and_flush-accepted l e true o nz low = ground arith
append_and_flush-accepted l e false o nz low = ground arith

-- An open log whose next number is the number of its records, and that replays, takes an event with an
-- id and a positive quantity that is written and synced, and replays then to the result of the event on
-- what it replayed to before.
pub append_and_flush-replay :
    (l : RecoveryLedger) (e : RecoveryEvent) (capacity : ℕ) (orders : List RecoveredOrder)
    → IsCurrent l
    → replay l capacity ≡ some orders
    → e.order_id ≢ 0
    → pos 1 ≤ℤ e.quantity
    → ((append_and_flush l e true true).1 ≡ true)
      × (replay (append_and_flush l e true true).0 capacity
          ≡ apply (make_record l.sequence e) capacity orders)
append_and_flush-replay l e capacity orders current was nz low =
    let o = current.opened in
    let room = replay-some l capacity was in
    let loop = sym (replay-opened l capacity o room) ∙ was in
    let at_end : 0 + length l.file ≡ l.sequence = omega (arith, current.counted) in
    let added = append_and_flush-accepted l e true o nz low in
    let after : RecoveryLedger = record (longer l e) { sequence = (l.sequence + 1) % 2 ^ 64 } in
    rw added (
      refl,
      replay-opened after capacity o room
          ∙ replay_from-append capacity 0 [] orders l.file (make_record l.sequence e ∷ []) loop
          ∙ rw at_end (last_record capacity l.sequence orders e),
    )

-- When the write of an event to such a log succeeds and its sync fails, the log reports the failure and
-- keeps the record, but does not count it. The next event that is written and synced takes the same
-- number, and the log, which replayed before, does not replay any more.
pub append_and_flush-unreadable :
    (l : RecoveryLedger) (e e' : RecoveryEvent) (capacity : ℕ) (orders : List RecoveredOrder)
    → IsCurrent l
    → replay l capacity ≡ some orders
    → e.order_id ≢ 0
    → pos 1 ≤ℤ e.quantity
    → e'.order_id ≢ 0
    → pos 1 ≤ℤ e'.quantity
    → let failed = append_and_flush l e true false in
      let next = append_and_flush failed.0 e' true true in
      (failed.1 ≡ false) × (next.1 ≡ true) × (replay next.0 capacity ≡ none)
append_and_flush-unreadable l e e' capacity orders current was nz low nz' low' =
    let o = current.opened in
    let room = replay-some l capacity was in
    let loop = sym (replay-opened l capacity o room) ∙ was in
    let at_end : 0 + length l.file ≡ l.sequence = omega (arith, current.counted) in
    let failed = append_and_flush-accepted l e false o nz low in
    let added = append_and_flush-accepted (longer l e) e' true o nz' low' in
    let after : RecoveryLedger = record (longer (longer l e) e') {
      sequence = (l.sequence + 1) % 2 ^ 64;
    } in
    let r = make_record l.sequence e in
    let r' = make_record l.sequence e' in
    rw failed (
      rw added (
        refl,
        refl,
        replay-opened after capacity o room
            ∙ rw (append_assoc l.file (r ∷ []) (r' ∷ [])) (
                replay_from-append capacity 0 [] orders l.file (r ∷ r' ∷ []) loop
                ∙ rw at_end (twice_unreadable capacity l.sequence orders e e')),
      ))
