-- ===== src/Stp/Resolution.antt =====
-- Self-trade prevention: what `evaluate` promises.
use luv_flicker.Base.{ℕ, ◌≡◌, ◌≢◌, ◌⊎◌, ℤ, pos, ◌-ℤ◌, ◌≤ℤ◌, true, arith, ◌↔◌}
use luv_flicker.Stp.{StpMode, StpResolution, evaluate, resolve}

-- A self-trade is detected exactly for one and the same known firm under a mode that prevents it.
pub evaluate_detects :
    (incoming_firm resting_firm : ℕ) (mode : StpMode) (incoming resting : ℤ)
    → ((evaluate incoming_firm resting_firm mode incoming resting).self_trade_detected ≡ true)
      ↔ ((incoming_firm ≢ 0) × (incoming_firm ≡ resting_firm) × (mode ≢ StpMode.none))
unfolding evaluate resolve
evaluate_detects f r StpMode.none a b = ground arith
evaluate_detects f r StpMode.cancel_newest a b = ground arith
evaluate_detects f r StpMode.cancel_oldest a b = ground arith
evaluate_detects f r StpMode.cancel_both a b = ground arith
evaluate_detects f r StpMode.decrement_and_cancel a b = ground arith

-- What a resolution does with the two quantities.
pub record Prevents (incoming resting : ℤ) (r : StpResolution) : Type 0 where
  -- One of the two orders is cancelled, and a cancelled order has no quantity left.
  pub one_cancelled : (r.cancel_incoming ≡ true) ⊎ (r.cancel_resting ≡ true)
  pub incoming_gone : r.cancel_incoming ≡ true → r.adjusted_incoming_qty ≡ pos 0
  pub resting_gone : r.cancel_resting ≡ true → r.adjusted_resting_qty ≡ pos 0
  -- No quantity grows or falls below zero.
  pub incoming_shrinks : (pos 0 ≤ℤ r.adjusted_incoming_qty) × (r.adjusted_incoming_qty ≤ℤ incoming)
  pub resting_shrinks : (pos 0 ≤ℤ r.adjusted_resting_qty) × (r.adjusted_resting_qty ≤ℤ resting)

-- Where a self-trade between orders of non-negative quantity is detected, at least one of the two
-- orders is cancelled with no quantity left, and neither quantity grows or falls below zero.
pub evaluate-Prevents :
    (incoming_firm resting_firm : ℕ) (mode : StpMode) (incoming resting : ℤ)
    → pos 0 ≤ℤ incoming
    → pos 0 ≤ℤ resting
    → (evaluate incoming_firm resting_firm mode incoming resting).self_trade_detected ≡ true
    → Prevents incoming resting (evaluate incoming_firm resting_firm mode incoming resting)
unfolding evaluate resolve ◌-ℤ◌
evaluate-Prevents f r StpMode.none a b ha hb d = absurd (ground arith)
evaluate-Prevents f r StpMode.cancel_newest a b ha hb d = ground arith
evaluate-Prevents f r StpMode.cancel_oldest a b ha hb d = ground arith
evaluate-Prevents f r StpMode.cancel_both a b ha hb d = ground arith
evaluate-Prevents f r StpMode.decrement_and_cancel a b ha hb d = ground arith

-- Under decrement-and-cancel both quantities fall by the same amount, for one known firm.
pub evaluate_decrement :
    (firm : ℕ) (incoming resting : ℤ)
    → firm ≢ 0
    → let r = evaluate firm firm StpMode.decrement_and_cancel incoming resting in
      incoming -ℤ r.adjusted_incoming_qty ≡ resting -ℤ r.adjusted_resting_qty
unfolding evaluate resolve ◌-ℤ◌
evaluate_decrement f a b h = ground arith
