-- ===== src/Exec/Gateway/Outcome.antt =====
-- What `try_build` of luv_execution.hpp answers: a refusal, or an order within its limits.
use luv_flicker.Base.{
  ◌*◌, ◌^◌, ◌≡◌, ◌≤◌, ◌<◌, pos_part, ◌+ℤ◌, Bool, true, false, not, ◌||◌, some, leb, ltb, refl,
  arith, Bool-cases, Option-cases, inl, inr, ◌⊎◌, update_self, if_cases,
}
use luv_flicker.Arena.Config
use luv_flicker.Arena.Orders.{SymbolExecState, max_active_orders}
use luv_flicker.Exec.Types.{OrderIntent, is_valid, signed_qty_delta, abs_i64}
use luv_flicker.Exec.Risk.{evaluate}
use luv_flicker.Exec.Risk.Limits.{evaluate_iff}
use luv_flicker.Exec.Ouch.{OutboundPacket, build_enter_order}
use luv_flicker.Exec.Slots.{reserve_order_slot}
use luv_flicker.Exec.Gateway.{
  ExecutionGateway, Answer, with_state, refuse, commit, check, try_build,
}
use luv_flicker.Safety.Breaker
use luv_flicker.Safety.Ledger
use luv_flicker.Safety.Breaker.{CircuitBreaker}
use luv_flicker.Safety.Limiter.{OrderRateLimiter, try_acquire}

-- What an accepted order has gone through.
pub record Accepted (g : ExecutionGateway) (intent : OrderIntent) (packet : OutboundPacket)
    (a : Answer) : Type 0 where
  pub approved :
      (evaluate (g.limits intent.symbol_idx) (g.states intent.symbol_idx).risk intent).pass ≡ true
  pub reserved : (reserve_order_slot (g.states intent.symbol_idx) intent).1 ≡ true
  pub placed :
      a.gateway.states intent.symbol_idx
      ≡ (reserve_order_slot (g.states intent.symbol_idx) intent).0
  pub registered :
      Ledger.register_order g.ledger intent.client_order_id intent.qty ≡ (a.gateway.ledger, true)
  pub built : build_enter_order g.initialised intent packet ≡ some a.packet

-- An answer is a refusal with an empty packet, or the order is accepted.
abbrev pub Settles : ExecutionGateway → OrderIntent → OutboundPacket → Answer → Type 0
Settles g intent packet a =
    ((a.decision.pass ≡ false) × (a.packet.len ≡ 0))
    ⊎ ((a.decision.pass ≡ true) × Accepted g intent packet a)

commit-Settles :
    (g : ExecutionGateway) (intent : OrderIntent) (packet built : OutboundPacket)
    (audit recovery : Bool)
    → (evaluate (g.limits intent.symbol_idx) (g.states intent.symbol_idx).risk intent).pass ≡ true
    → build_enter_order g.initialised intent packet ≡ some built
    → Settles g intent packet (commit g intent built audit recovery)
unfolding commit refuse with_state
commit-Settles g intent packet built audit recovery good is_built =
    let sym = intent.symbol_idx in
    let registered = Ledger.register_order g.ledger intent.client_order_id intent.qty in
    let reserved = reserve_order_slot (g.states sym) intent in
    elim (Bool-cases registered.1) [
      | inr unlisted ↦ rw unlisted (inl (refl, refl))
      | inl is_listed ↦ elim (Bool-cases reserved.1) [
        | inr unplaced ↦ rw (is_listed, unplaced) (inl (refl, refl))
        | inl done ↦ elim (Bool-cases (not audit || not recovery)) [
          | inl unlogged ↦ rw (is_listed, done, unlogged) (inl (refl, refl))
          | inr logged ↦
              rw (is_listed, done, logged)
                (inr (
                  refl,
                  record {
                    approved = good;
                    reserved = done;
                    placed = update_self g.states sym reserved.0;
                    registered = ground arith;
                    built = is_built;
                  },
                ))
        ]
      ]
    ]

check-Settles :
    (g : ExecutionGateway) (intent : OrderIntent) (packet : OutboundPacket) (audit recovery : Bool)
    → Settles g intent packet (check g intent packet audit recovery)
unfolding check refuse
check-Settles g intent packet audit recovery =
    let risk = (g.states intent.symbol_idx).risk in
    elim (Bool-cases (evaluate (g.limits intent.symbol_idx) risk intent).pass) [
      | inr bad ↦ rw bad (inl (refl, refl))
      | inl good ↦ elim (Bool-cases (ltb risk.order_count max_active_orders)) [
        | inr full ↦ rw (good, full) (inl (refl, refl))
        | inl room ↦ elim (Option-cases (build_enter_order g.initialised intent packet)) [
          | inl unbuilt ↦ rw (good, room, unbuilt) (inl (refl, refl))
          | inr (built, is_built) ↦
              rw (good, room, is_built)
                (commit-Settles g intent packet built audit recovery good is_built)
        ]
      ]
    ]

-- The breaker and the rate limiter have no part in it.
taken-Settles :
    (g : ExecutionGateway) (breaker : CircuitBreaker) (limiter : OrderRateLimiter)
    (intent : OrderIntent) (packet : OutboundPacket) (a : Answer)
    → Settles (record g { breaker = breaker; limiter = limiter }) intent packet a
    → Settles g intent packet a
taken-Settles g breaker limiter intent packet a (inl refused) = inl refused
taken-Settles g breaker limiter intent packet a (inr (passed, accepted)) = inr (
  passed,
  record {
    approved = accepted.approved;
    reserved = accepted.reserved;
    placed = accepted.placed;
    registered = accepted.registered;
    built = accepted.built;
  },
)

-- `try_build` either refuses with an empty packet, or the order passed the risk check, was entered
-- in the ledger and in a free slot, and the packet is the one that was built for it.
pub try_build-Settles :
    (g : ExecutionGateway) (intent : OrderIntent) (packet : OutboundPacket) (audit recovery : Bool)
    → Settles g intent packet (try_build g intent packet audit recovery)
unfolding try_build refuse
try_build-Settles g intent packet audit recovery =
    let acquired = try_acquire g.limiter in
    let asked : ExecutionGateway = record g {
      breaker = (Breaker.allow g.breaker intent.now_ns).0;
    } in
    let taken : ExecutionGateway = record asked { limiter = acquired.0 } in
    let SettledBy = Settles g intent packet in
    if_cases SettledBy (not g.attached || leb Config.symbols intent.symbol_idx) _ _
      (inl (refl, refl))
      (if_cases SettledBy (not (Breaker.allow g.breaker intent.now_ns).1) _ _ (inl (refl, refl)) (
        if_cases SettledBy (not acquired.1) _ _ (inl (refl, refl)) (
          taken-Settles g (Breaker.allow g.breaker intent.now_ns).0 acquired.0 intent packet _
            (check-Settles taken intent packet audit recovery))))

reserved-net :
    (st : SymbolExecState) (intent : OrderIntent)
    → (reserve_order_slot st intent).1 ≡ true
    → (reserve_order_slot st intent).0.risk.net_position
      ≡ st.risk.net_position +ℤ signed_qty_delta intent.side intent.qty
unfolding reserve_order_slot
reserved-net st intent done = ground arith

-- Under valid limits whose collar fits 64 bits, an accepted order leaves a position within the
-- position limit of its symbol, counted with all the open orders.
pub try_build-within_limits :
    (g : ExecutionGateway) (intent : OrderIntent) (packet : OutboundPacket) (audit recovery : Bool)
    → let l = g.limits intent.symbol_idx in
      let a = try_build g intent packet audit recovery in
      is_valid l ≡ true
      → pos_part l.reference_price * pos_part l.max_price_collar_pct < 2 ^ 64
      → a.decision.pass ≡ true
      → abs_i64 (a.gateway.states intent.symbol_idx).risk.net_position ≤ pos_part l.max_abs_position
try_build-within_limits g intent packet audit recovery valid fits pass =
    elim (try_build-Settles g intent packet audit recovery) [
      | inl (refused, empty) ↦ absurd (ground arith)
      | inr (passed, accepted) ↦
          let st = g.states intent.symbol_idx in
          let admissible =
            (evaluate_iff (g.limits intent.symbol_idx) st.risk intent valid fits).0
              accepted.approved in
          rw (accepted.placed, reserved-net st intent accepted.reserved) admissible.position_limit
    ]
