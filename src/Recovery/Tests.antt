-- ===== src/Recovery/Tests.antt =====
-- An empty log, two orders, and the theorems of luv_recovery.hpp at them.
use luv_flicker.Base.{ℕ, ◌≡◌, pos, true, false, [], none, some, arith, refl}
use luv_flicker.Recovery.{
  RecoveryEvent, RecoveryEventType, RecoveryLedger, make_record, append_and_flush, apply, replay,
  replay_from,
}
use luv_flicker.Recovery.Replay.{IsCurrent, append_and_flush-replay, append_and_flush-unreadable}

abbrev empty_log : RecoveryLedger
empty_log = record { is_open = true; sequence = 0; file = [] }

abbrev event : ℕ → RecoveryEvent
event order_id = record {
  type = RecoveryEventType.add;
  order_id = order_id;
  quantity = pos 10;
  price = pos 100;
  side = 0;
  timestamp_ns = 5;
}

empty_log-IsCurrent : IsCurrent empty_log
empty_log-IsCurrent = record { opened = refl; counted = refl }

nothing : replay empty_log 8 ≡ some []
unfolding replay replay_from
nothing = refl

append_and_flush-replay_example :
    ((append_and_flush empty_log (event 1) true true).1 ≡ true)
    × (replay (append_and_flush empty_log (event 1) true true).0 8
        ≡ apply (make_record 0 (event 1)) 8 [])
append_and_flush-replay_example =
    append_and_flush-replay empty_log (event 1) 8 [] empty_log-IsCurrent nothing (omega arith)
      (omega arith)

append_and_flush-unreadable_example :
    let failed = append_and_flush empty_log (event 1) true false in
    let next = append_and_flush failed.0 (event 2) true true in
    (failed.1 ≡ false) × (next.1 ≡ true) × (replay next.0 8 ≡ none)
append_and_flush-unreadable_example =
    append_and_flush-unreadable empty_log (event 1) (event 2) 8 [] empty_log-IsCurrent nothing
      (omega arith) (omega arith) (omega arith) (omega arith)
