-- ===== src/Safety/Sequence.antt =====
-- luv_safety.hpp, `SequenceTracker`: what has been seen of a numbered stream, and its gaps.
pub mod Gaps
use luv_flicker.Base.{
  ℕ, ◌+◌, ◌-◌, ◌%◌, ◌^◌, Bool, true, false, not, ◌||◌, if◌then◌else◌, ◌==◌, ltb, leb,
}

pub data SequenceResult : Type 0 where
  first next duplicate gap out_of_order : SequenceResult

pub data SequenceGapClass : Type 0 where
  none recoverable fatal : SequenceGapClass

abbrev pub max_recoverable_gap : ℕ
max_recoverable_gap = 100

-- `last` stands for `_last`, and the other fields likewise.
pub record SequenceTracker : Type 0 where
  pub initialized : Bool
  pub next_sequence : ℕ
  pub last : ℕ
  pub gaps : ℕ
  pub gap_size : ℕ
  pub gap_class : SequenceGapClass
  pub gap_pending : Bool
  pub invalid : Bool

-- The jump from `_next` to a later number.
unfoldable pub jump : SequenceTracker → ℕ → SequenceTracker
jump t sequence =
    let size = sequence - t.next_sequence in
    let small = leb size max_recoverable_gap in
    record t {
      gaps = (t.gaps + size) % 2 ^ 64;
      last = sequence;
      gap_size = size;
      gap_class = if small then recoverable else fatal;
      gap_pending = small;
      invalid = not small;
      next_sequence = (sequence + 1) % 2 ^ 64;
    }

unfoldable pub observe : SequenceTracker → ℕ → SequenceTracker × SequenceResult
unfolding jump
observe t sequence =
    if not t.initialized
    then (
      record t { initialized = true; next_sequence = (sequence + 1) % 2 ^ 64; last = sequence },
      first,
    )
    else if sequence == t.next_sequence
    then (record t { next_sequence = (t.next_sequence + 1) % 2 ^ 64; last = sequence }, next)
    else if ltb sequence t.next_sequence
    then (t, if (sequence + 1) % 2 ^ 64 == t.next_sequence then duplicate else out_of_order)
    else (jump t sequence, gap)

unfoldable pub acknowledge_retransmit : SequenceTracker → ℕ → ℕ → SequenceTracker × Bool
acknowledge_retransmit t first_missing last_missing =
    if not t.gap_pending
      || ltb last_missing first_missing
      || not ((last_missing - first_missing + 1) % 2 ^ 64 == t.gap_size)
    then (t, false)
    else (record t { gap_pending = false; gap_class = none; gap_size = 0 }, true)

unfoldable pub reset : SequenceTracker → SequenceTracker
reset t = record {
  initialized = false;
  next_sequence = 0;
  last = 0;
  gaps = 0;
  gap_size = 0;
  gap_class = none;
  gap_pending = false;
  invalid = false;
}
