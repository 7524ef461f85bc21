-- ===== src/OuchFeed/Tests.antt =====
-- Runs of luv_ouch.hpp.
use luv_flicker.Base.{
  ℕ, ◌<◌, ◌≤◌, ◌≡◌, refl, pos, ◌*ℤ◌, true, none, some, ◌==◌, if◌then◌else◌, arith,
}
use luv_flicker.Itch.Bytes.{Memory}
use luv_flicker.Exec.Fixture.{gateway, resting, found, resting-open, nothing_filled}
use luv_flicker.Exec.Types.{signed_qty_delta}
use luv_flicker.Exec.Gateway.Admission.{Kept}
use luv_flicker.OuchFeed.{
  Event, EventType, Answers, parse, parse_body, be64, be64_loop, be32, consume,
}
use luv_flicker.OuchFeed.Frames.{frame, message, parse-frame}
use luv_flicker.OuchFeed.Local.{parse-local}
use luv_flicker.OuchFeed.Flow.{asked, booked_by, consume-frame}

-- An execution of 2 of order 3, in front of bytes 7.
abbrev sent_bytes : Memory
sent_bytes = frame EventType.executed 3 2 1 0 (λ i. 7)

abbrev executed_event : Event
executed_event = message EventType.executed 3 2 1 0

parse-frame_example : parse sent_bytes 20 ≡ some (executed_event, 15)
parse-frame_example =
    parse-frame EventType.executed 3 2 1 0 (λ i. 7) 20 (omega arith) (omega arith) (omega arith)
      (omega arith) (omega arith) (omega arith) (omega arith)

parsed : parse sent_bytes 20 ≡ some (executed_event, 15)
unfolding parse be64 be64_loop be32 parse_body frame
parsed = refl

-- Other bytes behind the frame.
abbrev other_bytes : Memory
other_bytes = frame EventType.executed 3 2 1 0 (λ i. 9)

same_frame : (i : ℕ) → i < 15 → other_bytes i ≡ sent_bytes i
unfolding frame
same_frame i h = ground arith

parse-local_example :
    (11 ≤ 15) × (15 ≤ 19) × (15 ≤ 20) × (parse other_bytes 15 ≡ some (executed_event, 15))
parse-local_example =
    parse-local sent_bytes other_bytes 20 15 executed_event 15 parsed (omega arith) same_frame

-- The length says 9 and the tag is of an execution.
too_short : parse (λ i. if i == 1 then 9 else 69) 20 ≡ none
unfolding parse be64 be64_loop parse_body
too_short = refl

abbrev answers : Answers
answers = record { recovery_ok = true; subscriber = none; clock = 0; now_ns = 0 }

consume-frame_example :
    let (r, consumed) = consume sent_bytes 20 2 gateway answers in
    (r ≡ asked gateway 2 EventType.executed 3 2 1 answers)
    × (consumed ≡ 15)
    × Kept
        (r.0).states
        (booked_by EventType.executed (λ s. pos 0) 2 (signed_qty_delta resting.side (pos 2)) r.1)
        (booked_by EventType.executed (λ s. pos 0) 2 (resting.price *ℤ pos 2) r.1)
consume-frame_example =
    consume-frame EventType.executed 3 2 1 0 (λ i. 7) 20 (omega arith) (omega arith) (omega arith)
      (omega arith) (omega arith) (omega arith) (omega arith) 2 gateway answers 0 resting
      nothing_filled (λ e. (found, resting-open))
