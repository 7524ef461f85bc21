-- ===== src/Exec/Tests.antt =====
-- A gateway with one open order, and the theorems of luv_execution.hpp at it.
use luv_flicker.Base.{
  ◌+◌, ◌≡◌, ◌≤◌, ◌↔◌, pos, ◌+ℤ◌, ◌-ℤ◌, ◌*ℤ◌, Bool, true, false, [], ◌∷◌, none, arith, refl, ap,
}
use luv_flicker.Numeric.{is_valid_price, is_valid_quantity}
use luv_flicker.Exec.Types.{OrderIntent, default_limits, is_valid, signed_qty_delta, abs_i64}
use luv_flicker.Exec.Risk.{
  evaluate, passes, valid_qty, safe_qty, projected, valid_pos, valid_alpha, valid_price, collar_ok,
  loss_ok, valid_notional,
}
use luv_flicker.Exec.Risk.Limits.{Admissible, evaluate_iff}
use luv_flicker.Exec.Ouch.{OutboundPacket, build_enter_order}
use luv_flicker.Exec.Slots.{search_orders, is_free, has_open_id, reserve_order_slot}
use luv_flicker.Exec.Gateway.{ExecutionGateway, try_build, check, commit, refuse}
use luv_flicker.Exec.Gateway.Outcome.{Settles, try_build-Settles, try_build-within_limits}
use luv_flicker.Exec.Reports.{apply_execution_report, apply_reject_report}
use luv_flicker.Exec.Reports.Fills.{World, Step, Steps, after_report, KeptIn, Steps-Kept}
use luv_flicker.Exec.Triggers.{
  ConditionalOrder, StopOrderTable, evaluate_bbo, fires, route, send, stop_limit, triggered_price,
  stop_trigger, trigger_intent,
}
use luv_flicker.Exec.Triggers.Sending.{IsCounted, active_in, evaluate_bbo-IsCounted}
use luv_flicker.Exec.Fixture.{resting, traded, ledger, gateway, found, resting-open, nothing_filled}
use luv_flicker.Safety.Breaker
use luv_flicker.Safety.Ledger
use luv_flicker.Safety.Ledger.{ReconciliationLedger, ExecutionReport}
use luv_flicker.Safety.Ledger.Clusters.{register_order-fresh}
use luv_flicker.Safety.Limiter.{try_acquire}

abbrev blank : OutboundPacket
blank = record { len = 0; bytes = λ i. 0 }

abbrev order : OrderIntent
order = record {
  symbol_idx = 2;
  side = 1;
  qty = pos 4;
  price = pos 120;
  alpha_timestamp_ns = 1_000;
  now_ns = 1_000;
  client_order_id = 7;
  time_in_force = 0;
}

abbrev answer : ExecutionGateway
answer = (try_build gateway order blank true true).gateway

default_limits-valid : is_valid default_limits ≡ true
unfolding is_valid is_valid_price is_valid_quantity
default_limits-valid = refl

evaluate_iff_example :
    ((evaluate default_limits traded.risk order).pass ≡ true)
    ↔ Admissible default_limits traded.risk order
evaluate_iff_example =
    evaluate_iff default_limits traded.risk order default_limits-valid (omega arith)

try_build-Settles_example : Settles gateway order blank (try_build gateway order blank true true)
try_build-Settles_example = try_build-Settles gateway order blank true true

registered : (Ledger.register_order ledger 7 (pos 4)).1 ≡ true
registered = ap (λ r. r.1) (register_order-fresh ledger 7 (pos 4) (omega arith) (omega arith) refl)

accepted : (try_build gateway order blank true true).decision.pass ≡ true
unfolding try_build check commit refuse evaluate passes valid_qty valid_pos projected safe_qty
    signed_qty_delta valid_alpha valid_price collar_ok loss_ok valid_notional abs_i64 ◌+ℤ◌ ◌-ℤ◌ ◌*ℤ◌
    build_enter_order reserve_order_slot search_orders is_free Breaker.allow Breaker.allow_closed
    try_acquire
accepted = rw registered refl

try_build-within_limits_example :
    abs_i64 ((try_build gateway order blank true true).gateway.states 2).risk.net_position ≤ 100_000
try_build-within_limits_example =
    try_build-within_limits gateway order blank true true default_limits-valid (omega arith)
      accepted

abbrev part_fill : ExecutionReport
part_fill = record { order_id = 3; filled_quantity = pos 2; terminal = false }

abbrev reported : ExecutionGateway × Bool
reported = apply_execution_report gateway 2 part_fill true none 0

abbrev start : World
start = record { gateway = gateway; positions = λ s. pos 0; exposures = λ s. pos 0 }

fresh : search_orders (has_open_id 7) traded.orders ≡ none
unfolding search_orders has_open_id
fresh = refl

-- A partial fill of the open order, and the reject of an order that the gateway does not know.
Steps-Kept_example : KeptIn (record (after_report start 2 part_fill resting reported) {
  gateway = (apply_reject_report reported.0 2 9 500).0;
})
Steps-Kept_example =
    Steps-Kept
      (Steps.more start _ _ (Step.filled start 2 part_fill true none 0 0 resting found resting-open)
        (Steps.more _ _ _ (Step.reject (after_report start 2 part_fill resting reported) 2 9 500)
          (Steps.done _)))
      nothing_filled

-- A stop order to sell 4 once the bid is at 110 or below.
abbrev stop : ConditionalOrder
stop = record {
  trigger_id = 1;
  symbol_idx = 2;
  side = 1;
  trigger_type = stop_limit;
  stop_price = pos 110;
  limit_price = pos 120;
  peg_offset = pos 0;
  qty = pos 4;
  client_order_id = 7;
  time_in_force = 0;
  active = 1;
}

abbrev table : StopOrderTable
table = record { triggers = stop ∷ []; active_count = 1 }

table-IsCounted : IsCounted table
unfolding IsCounted active_in
table-IsCounted = refl

evaluate_bbo-IsCounted_example :
    let (table', r) =
      evaluate_bbo table 2
        (pos 105)
        (pos 130)
        1_000
        gateway
        (λ j. blank)
        8
        (λ i. true)
        (λ i. true) in
    IsCounted table' × (table'.active_count + r.routed ≡ 1)
evaluate_bbo-IsCounted_example =
    evaluate_bbo-IsCounted table 2 (pos 105) (pos 130) 1_000 gateway (λ j. blank) 8 (λ i. true)
      (λ i. true) table-IsCounted

routed_one :
    (evaluate_bbo table 2
      (pos 105)
      (pos 130)
      1_000
      gateway
      (λ j. blank)
      8
      (λ i. true)
      (λ i. true)).1.routed
    ≡ 1
unfolding evaluate_bbo route send fires triggered_price stop_trigger trigger_intent
routed_one = rw accepted refl
