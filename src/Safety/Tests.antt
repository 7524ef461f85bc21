-- ===== src/Safety/Tests.antt =====
-- Concrete runs of the parts of luv_safety.hpp, and the theorems at them.
use luv_flicker.Base.{
  ℕ, ◌+◌, ◌*◌, ◌%◌, ◌≡◌, ◌↔◌, ◌⊎◌, pos, true, false, some, List, [], ◌∷◌, if◌then◌else◌, ◌==◌,
  arith, refl, inr,
}
use luv_flicker.Safety.Sequence.{SequenceTracker, none}
use luv_flicker.Safety.Sequence.Gaps.{observe_all, observe_all-counts}
use luv_flicker.Safety.Breaker.{CircuitBreaker, State, opened, half_open, allow}
use luv_flicker.Safety.Breaker.Recovery.{allow-recovers}
use luv_flicker.Safety.Ledger.{
  ReconciliationLedger, ExecutionReport, hash, put_entry, contains, apply,
}
use luv_flicker.Safety.Ledger.Clusters.{
  register_order-contains, register_order-fresh, apply-forgets,
}
use luv_flicker.Safety.Audit.{
  Content, DurableAuditLog, whole, next_event, write_all, append, verify_log_integrity,
  validate_records, valid_event,
}
use luv_flicker.Safety.Audit.Chain.{
  IsChained, append-IsChained, Collide, verify_log_integrity_unique,
}

abbrev tracker : SequenceTracker
tracker = record {
  initialized = true;
  next_sequence = 10;
  last = 9;
  gaps = 0;
  gap_size = 0;
  gap_class = none;
  gap_pending = false;
  invalid = false;
}

-- The next message, one behind a gap of two, and a late one.
abbrev stream : List ℕ
stream = 10 ∷ 13 ∷ 11 ∷ []

observe_all-counts_example :
    let (t', n) = observe_all tracker stream in t'.next_sequence + 0 ≡ 10 + n + t'.gaps
observe_all-counts_example =
    observe_all-counts tracker stream refl (omega arith) (omega arith)
      (omega arith, (omega arith, (omega arith, tt)))

abbrev guard : State → CircuitBreaker
guard s = record {
  max_failures = 1;
  cool_down_ns = 1_000;
  trip_timestamp_ns = 5_000;
  failures = 1;
  consecutive_rejections = 0;
  max_consecutive_rejections = 0;
  half_open_enabled = true;
  half_open_max_probes = 2;
  half_open_successes_needed = 1;
  half_open_probes_issued = 0;
  half_open_successes = 0;
  max_rate_per_window = 0;
  rate_window_ns = 0;
  window_start_ns = 0;
  window_count = 0;
  max_loss_limit = pos 0;
  state = s;
  tripped = true;
}

allow-recovers_example :
    ((allow (guard opened) 6_000).1 ≡ true) × ((allow (guard opened) 6_000).0.state ≡ half_open)
allow-recovers_example =
    allow-recovers (guard opened) 6_000 refl (omega arith) (omega arith) (omega arith)

abbrev requests : List ℕ
requests = 1 ∷ 2 ∷ 3 ∷ []

abbrev no_orders : ReconciliationLedger
no_orders = record { ids = λ s. 0; remaining = λ s. pos 0; open_orders = 0; mismatches = 0 }

abbrev one_order : ReconciliationLedger
one_order = record (put_entry no_orders (hash 7) 7 (pos 5)) { open_orders = 1 }

register_order-contains_example : contains one_order 7 ≡ true
register_order-contains_example =
    register_order-contains no_orders 7 (pos 5) {l' = one_order} 7
      (register_order-fresh no_orders 7 (pos 5) (omega arith) (omega arith) refl) (inr refl)

-- Two orders of one hash value, and the report that ends the first.
abbrev two_orders : ReconciliationLedger
two_orders = record {
  ids = λ s. if s == 36_895 then 196 else if s == 36_896 then 312 else 0;
  remaining = λ s. pos 5;
  open_orders = 2;
  mismatches = 0;
}

abbrev last_fill : ExecutionReport
last_fill = record { order_id = 196; filled_quantity = pos 5; terminal = true }

apply-forgets_example :
    (contains two_orders 312 ≡ true)
    × ((apply two_orders last_fill).1 ≡ true)
    × (contains (apply two_orders last_fill).0 312 ≡ false)
unfolding hash
apply-forgets_example =
    apply-forgets two_orders last_fill 312 (omega arith) (omega arith) refl (omega arith) refl refl
      refl (omega arith) (omega arith)

-- A digest of one byte.
abbrev digest : ℕ → Content → ℕ
digest h c = (31 * h + c.order_id + 1) % 256

same_iff : (h h' : ℕ) → ((h == h') ≡ true) ↔ (h ≡ h')
same_iff h h' = ground arith

abbrev new_log : DurableAuditLog ℕ
new_log = record {
  is_open = true;
  sync_interval = 100;
  pending = 0;
  sequence = 0;
  tail = 0;
  file = [];
  torn = 0;
}

abbrev buy_order : Content
buy_order = record {
  sequence = 0;
  timestamp_ns = 5;
  order_id = 7;
  price = pos 100;
  quantity = pos 5;
  trader_id = 0;
  side = 0;
  type = 65;
}

new_log-IsChained : IsChained ℕ digest ◌==◌ same_iff 0 new_log
unfolding verify_log_integrity validate_records
new_log-IsChained = record { prefix = λ h. absurd (ground (arith, h)); chained = λ h. refl }

append-IsChained_example :
    IsChained ℕ digest ◌==◌ same_iff 0 (append ℕ digest ◌==◌ new_log buy_order whole true).0
append-IsChained_example =
    append-IsChained ℕ digest ◌==◌ same_iff 0 new_log buy_order whole true new_log-IsChained
      (omega arith)

logged : Content → DurableAuditLog ℕ
logged content = (append ℕ digest ◌==◌ new_log content whole true).0

-- Another order, of the same digest.
abbrev other_order : Content
other_order = record buy_order { order_id = 263 }

accepted_log : verify_log_integrity ℕ digest ◌==◌ 0 (logged buy_order).file 0 ≡ some (1, 8)
unfolding logged append next_event write_all verify_log_integrity validate_records valid_event
accepted_log = refl

accepted_other : verify_log_integrity ℕ digest ◌==◌ 0 (logged other_order).file 0 ≡ some (1, 8)
unfolding logged append next_event write_all verify_log_integrity validate_records valid_event
accepted_other = refl

verify_log_integrity_unique_example :
    ((logged buy_order).file ≡ (logged other_order).file)
    ⊎ Collide ℕ digest ◌==◌ same_iff (logged buy_order).file (logged other_order).file
verify_log_integrity_unique_example =
    verify_log_integrity_unique ℕ digest ◌==◌ same_iff 0 (logged buy_order).file
      (logged other_order).file 0 0 1 8 accepted_log accepted_other
