-- ===== src/Exec/Gateway.antt =====
-- luv_execution.hpp, `ExecutionGateway`: its state, its way in (`try_build`, `try_replace`) and the
-- controls of a symbol. What the audit log and the recovery ledger answer is an argument, true also
-- where none is attached.
pub mod Admission
pub mod Outcome
use luv_flicker.Base.{
  ℕ, ◌+◌, ◌-◌, ◌%◌, ◌^◌, ℤ, pos, ltb_ℤ, Bool, true, false, not, ◌&&◌, ◌||◌, Option, none, some,
  if◌then◌else◌, ◌==◌, leb, ltb, update,
}
use luv_flicker.Arena.Config
use luv_flicker.Arena.Orders.{ActiveOrder, RiskState, SymbolExecState, max_active_orders}
use luv_flicker.Exec.Types.{
  RiskLimits, OrderIntent, OrderReplaceIntent, RiskDecision, refused, default_limits, is_valid,
  reject_flat_signal, reject_position, reject_halted, reject_invalid_symbol, reject_order_capacity,
}
use luv_flicker.Exec.Risk.{evaluate}
use luv_flicker.Exec.Ouch.{OutboundPacket, build_enter_order, build_replace_order}
use luv_flicker.Exec.Slots.{reserve_order_slot, release_order_slot, search_orders, has_open_id}
use luv_flicker.Safety.Breaker
use luv_flicker.Safety.Breaker.{CircuitBreaker}
use luv_flicker.Safety.Ledger
use luv_flicker.Safety.Ledger.{ReconciliationLedger}
use luv_flicker.Safety.Limiter.{OrderRateLimiter, try_acquire, release}

-- `attached` is whether `_arena` is set, `states` the arena's `exec_states`, `limits` the members
-- of `_risk`, and `initialised` that of `_ouch`.
pub record ExecutionGateway : Type 0 where
  pub attached : Bool
  pub initialised : Bool
  pub limits : ℕ → RiskLimits
  pub states : ℕ → SymbolExecState
  pub breaker : CircuitBreaker
  pub ledger : ReconciliationLedger
  pub limiter : OrderRateLimiter
  pub last_fill_timestamp_ns : ℕ
  pub fill_report_count : ℕ
  pub dropped_fill_notifications : ℕ

-- `arena_ready` is `arena.is_initialised()`.
unfoldable pub init : ExecutionGateway → Bool → ExecutionGateway × Bool
init g arena_ready =
    if arena_ready
    then (
      record g {
        attached = true;
        initialised = true;
        limits = λ sym. default_limits;
        breaker = Breaker.reset g.breaker;
        fill_report_count = 0;
        dropped_fill_notifications = 0;
      },
      true,
    )
    else (g, false)

unfoldable pub set_limits : ExecutionGateway → ℕ → RiskLimits → ExecutionGateway × Bool
set_limits g sym limits =
    if leb Config.symbols sym || not (is_valid limits)
    then (g, false)
    else (record g { limits = update g.limits sym limits }, true)

unfoldable pub with_state : ExecutionGateway → ℕ → SymbolExecState → ExecutionGateway
with_state g sym st = record g { states = update g.states sym st }

unfoldable pub set_halted : ExecutionGateway → ℕ → ℕ → ExecutionGateway
unfolding with_state
set_halted g sym halted =
    with_state g sym
      (record (g.states sym) { risk = record (g.states sym).risk { halted = halted } })

unfoldable pub count_reject : ExecutionGateway → ℕ → ExecutionGateway
unfolding with_state
count_reject g sym = with_state g sym (record (g.states sym) {
  risk = record (g.states sym).risk {
    reject_count = ((g.states sym).risk.reject_count + 1) % 2 ^ 32;
  };
})

unfoldable pub halt_symbol : ExecutionGateway → ℕ → ExecutionGateway
unfolding set_halted
halt_symbol g sym = if g.attached && ltb sym Config.symbols then set_halted g sym 1 else g

unfoldable pub resume_symbol : ExecutionGateway → ℕ → ExecutionGateway
unfolding set_halted
resume_symbol g sym = if g.attached && ltb sym Config.symbols then set_halted g sym 0 else g

unfoldable pub is_symbol_halted : ExecutionGateway → ℕ → Bool
is_symbol_halted g sym =
    if not g.attached || leb Config.symbols sym then true else not ((g.states sym).risk.halted == 0)

-- What a call returns and writes: the gateway, the decision and the packet.
pub record Answer : Type 0 where
  pub gateway : ExecutionGateway
  pub decision : RiskDecision
  pub packet : OutboundPacket

-- A refusal leaves an empty packet.
unfoldable pub refuse : ExecutionGateway → ℕ → OutboundPacket → Answer
refuse g mask packet = record {
  gateway = g;
  decision = refused mask;
  packet = record packet { len = 0 };
}

unfoldable pub release_slot : ExecutionGateway → ExecutionGateway
unfolding release
release_slot g = record g { limiter = release g.limiter }

unfoldable pub record_failure : ExecutionGateway → ℕ → ExecutionGateway
record_failure g now_ns = record g { breaker = Breaker.record_failure g.breaker now_ns }

unfoldable pub cancel : ExecutionGateway → ℕ → ExecutionGateway
cancel g order_id = record g { ledger = (Ledger.cancel g.ledger order_id).0 }

-- The order is in the ledger and in its slot, and a log refuses it.
unfoldable pub roll_back : ExecutionGateway → OrderIntent → ExecutionGateway
unfolding record_failure count_reject release_slot with_state cancel
roll_back g intent =
    let sym = intent.symbol_idx in
    let cancelled = cancel g intent.client_order_id in
    let emptied = with_state cancelled sym (release_order_slot (g.states sym) intent) in
    record_failure (count_reject (release_slot emptied) sym) intent.now_ns

-- `try_build` from `register_order` on.
unfoldable pub commit :
    ExecutionGateway → OrderIntent → OutboundPacket → (audit_ok recovery_ok : Bool) → Answer
unfolding refuse record_failure count_reject release_slot with_state cancel roll_back
commit g intent built audit_ok recovery_ok =
    let sym = intent.symbol_idx in
    let registered = Ledger.register_order g.ledger intent.client_order_id intent.qty in
    let reserved = reserve_order_slot (g.states sym) intent in
    let listed = record g { ledger = registered.0 } in
    let placed = with_state listed sym reserved.0 in
    if not registered.1
    then refuse (record_failure (count_reject (release_slot listed) sym) intent.now_ns)
        reject_position built
    else if not reserved.1
    then refuse (record_failure (release_slot (cancel placed intent.client_order_id)) intent.now_ns)
        reject_position built
    else if not audit_ok || not recovery_ok
    then refuse (roll_back placed intent) reject_halted built
    else record {
      gateway = placed;
      decision = record { pass = true; reject_mask = 0 };
      packet = built;
    }

-- `try_build` behind the breaker and the rate limiter.
unfoldable pub check :
    ExecutionGateway → OrderIntent → OutboundPacket → (audit_ok recovery_ok : Bool) → Answer
unfolding refuse count_reject release_slot set_halted
check g intent packet audit_ok recovery_ok =
    let sym = intent.symbol_idx in
    let risk = (g.states sym).risk in
    let decision = evaluate (g.limits sym) risk intent in
    let capacity_ok = ltb risk.order_count max_active_orders in
    let mask = decision.reject_mask + (if capacity_ok then 0 else reject_order_capacity) in
    let counted = count_reject (release_slot g) sym in
    if not decision.pass
    then refuse counted mask packet
    else if not capacity_ok
    then refuse (set_halted counted sym 1) mask packet
    else elim (build_enter_order g.initialised intent packet) [
      | none ↦ refuse counted (mask + reject_flat_signal) packet
      | some built ↦ commit g intent built audit_ok recovery_ok
    ]

unfoldable pub try_build :
    ExecutionGateway → OrderIntent → OutboundPacket → (audit_ok recovery_ok : Bool) → Answer
unfolding refuse count_reject set_halted
try_build g intent packet audit_ok recovery_ok =
    let sym = intent.symbol_idx in
    let allowed = Breaker.allow g.breaker intent.now_ns in
    let acquired = try_acquire g.limiter in
    let asked = record g { breaker = allowed.0 } in
    let taken = record asked { limiter = acquired.0 } in
    if not g.attached || leb Config.symbols sym
    then refuse g reject_invalid_symbol packet
    else if not allowed.1
    then refuse (set_halted (count_reject asked sym) sym 1) reject_halted packet
    else if not acquired.1
    then refuse (set_halted (count_reject taken sym) sym 1) reject_halted packet
    else check taken intent packet audit_ok recovery_ok

-- The order that `try_replace` has checked in place of the resting one.
unfoldable pub test_intent : OrderReplaceIntent → ActiveOrder → OrderIntent
test_intent intent existing = record {
  symbol_idx = intent.symbol_idx;
  side = existing.side;
  qty = intent.new_qty;
  price = intent.new_price;
  alpha_timestamp_ns = intent.alpha_timestamp_ns;
  now_ns = intent.now_ns;
  client_order_id = intent.replacement_order_id;
  time_in_force = intent.time_in_force;
}

-- `try_replace` for the order it has found.
unfoldable pub replace_found :
    ExecutionGateway
    → OrderReplaceIntent
    → ActiveOrder
    → OutboundPacket
    → (audit_ok : Bool) → Answer
unfolding refuse count_reject test_intent record_failure
replace_found g intent existing packet audit_ok =
    let sym = intent.symbol_idx in
    let decision = evaluate (g.limits sym) (g.states sym).risk (test_intent intent existing) in
    let counted = count_reject g sym in
    if not decision.pass
    then refuse counted decision.reject_mask packet
    else elim (build_replace_order g.initialised intent packet) [
      | none ↦ refuse counted (decision.reject_mask + reject_flat_signal) packet
      | some built ↦
          if not audit_ok
          then refuse (record_failure counted intent.now_ns) (decision.reject_mask + reject_halted)
              built
          else record { gateway = g; decision = decision; packet = built }
    ]

unfoldable pub try_replace :
    ExecutionGateway → OrderReplaceIntent → OutboundPacket → (audit_ok : Bool) → Answer
unfolding refuse count_reject set_halted replace_found
try_replace g intent packet audit_ok =
    let sym = intent.symbol_idx in
    let allowed = Breaker.allow g.breaker intent.now_ns in
    let asked = record g { breaker = allowed.0 } in
    if not g.attached || leb Config.symbols sym
    then refuse g reject_invalid_symbol packet
    else if not allowed.1
    then refuse (set_halted (count_reject asked sym) sym 1) reject_halted packet
    else if not (Ledger.contains g.ledger intent.original_order_id)
    then refuse (count_reject asked sym) reject_position packet
    else elim (search_orders (has_open_id intent.original_order_id) (g.states sym).orders) [
      | none ↦ refuse (count_reject asked sym) reject_position packet
      | some (slot, existing) ↦ replace_found asked intent existing packet audit_ok
    ]
