-- ===== src/Safety/Sequence/Gaps.antt =====
-- What the sequence tracker of luv_safety.hpp accounts for, and what it forgets.
use luv_flicker.Base.{ℕ, ◌+◌, ◌^◌, ◌<◌, ◌≤◌, ◌≡◌, true, false, List, [], ◌∷◌, arith}
use luv_flicker.Safety.Sequence.{
  SequenceTracker, SequenceResult, first, next, duplicate, gap, out_of_order, observe,
}

-- A message that moves the tracker: the first, the next one, or one behind a gap.
abbrev pub accepted : SequenceResult → ℕ
accepted first = 1
accepted next = 1
accepted gap = 1
accepted duplicate = 0
accepted out_of_order = 0

-- The tracker after a stream of messages, and how many of them moved it.
abbrev pub observe_all : SequenceTracker → List ℕ → SequenceTracker × ℕ
observe_all t [] = (t, 0)
observe_all t (s ∷ ss) =
    let rest = observe_all (observe t s).0 ss in (rest.0, accepted (observe t s).1 + rest.1)

-- No number of the stream is the last of 64 bits.
abbrev pub Fits : List ℕ → Type 0
Fits [] = Unit {0}
Fits (s ∷ ss) = (s + 1 < 2 ^ 64) × Fits ss

observe_counts :
    (t : SequenceTracker) (s : ℕ)
    → t.initialized ≡ true
    → t.gaps ≤ t.next_sequence
    → t.next_sequence < 2 ^ 64
    → s + 1 < 2 ^ 64
    → let (t', r) = observe t s in
      (t'.initialized ≡ true)
      × (t'.gaps ≤ t'.next_sequence)
      × (t'.next_sequence < 2 ^ 64)
      × (t'.next_sequence + t.gaps ≡ t.next_sequence + accepted r + t'.gaps)
unfolding observe
observe_counts t s i g n b = ground arith

-- For a tracker that has seen its first message, whose next number is at least its count of gaps and fits 64 bits, and
-- a stream whose numbers have a successor in 64 bits: the numbers that the tracker passes are those that moved it and
-- those that it counts as missing, no more and no less.
pub observe_all-counts :
    (t : SequenceTracker) (ss : List ℕ)
    → t.initialized ≡ true
    → t.gaps ≤ t.next_sequence
    → t.next_sequence < 2 ^ 64
    → Fits ss
    → let (t', n) = observe_all t ss in t'.next_sequence + t.gaps ≡ t.next_sequence + n + t'.gaps
observe_all-counts t [] i g n f = omega arith
observe_all-counts t (s ∷ ss) i g n f =
    let (i', g', n', e) = observe_counts t s i g n f.0 in
    omega (arith, observe_all-counts (observe t s).0 ss i' g' n' f.1, e)

-- A fatal gap marks the stream invalid; a recoverable gap behind it takes the mark away, although
-- nothing of the fatal gap was sent again.
pub fatal_gap-forgotten :
    (t : SequenceTracker) (s s' : ℕ)
    → t.initialized ≡ true
    → t.next_sequence + 100 < s
    → s + 1 < s'
    → s' ≤ s + 101
    → s' < 2 ^ 64
    → ((observe t s).0.invalid ≡ true)
      × ((observe (observe t s).0 s').1 ≡ gap)
      × ((observe (observe t s).0 s').0.invalid ≡ false)
unfolding observe
fatal_gap-forgotten t s s' i a b c d = ground arith
