-- ===== src/Exec/Gateway/Admission.antt =====
-- What the way into the gateway of luv_execution.hpp does to the books of the symbols.
use luv_flicker.Base.{
  ℕ, ◌≡◌, ℤ, Bool, true, not, ◌||◌, none, ◌==◌, leb, ltb, update, arith, Bool-cases, Option-cases,
  inl, inr, sym, update_self, if_cases,
}
use luv_flicker.Arena.Config
use luv_flicker.Arena.Orders.{ActiveOrder, SymbolExecState, max_active_orders}
use luv_flicker.Exec.Types.{OrderIntent, OrderReplaceIntent}
use luv_flicker.Exec.Risk.{evaluate}
use luv_flicker.Exec.Ouch.{OutboundPacket, build_enter_order, build_replace_order}
use luv_flicker.Exec.Slots.{reserve_order_slot, release_order_slot, search_orders, has_open_id}
use luv_flicker.Exec.Slots.Held.{Books}
use luv_flicker.Exec.Slots.Settled.{reserve_order_slot-Books, release_order_slot-Books}
use luv_flicker.Exec.Gateway.{
  ExecutionGateway, Answer, with_state, set_halted, count_reject, refuse, release_slot,
  record_failure, cancel, roll_back, commit, check, try_build, replace_found, test_intent,
  try_replace,
}
use luv_flicker.Safety.Breaker
use luv_flicker.Safety.Ledger
use luv_flicker.Safety.Limiter.{try_acquire}

-- The books of every symbol, after the fills.
pub record Kept (states : ℕ → SymbolExecState) (positions exposures : ℕ → ℤ) : Type 0 where
  pub at : (s : ℕ) → Books (states s) (positions s) (exposures s)

pub Kept-update :
    (states : ℕ → SymbolExecState) (sym : ℕ) (st : SymbolExecState) {positions exposures : ℕ → ℤ}
    → Kept states positions exposures
    → Books st (positions sym) (exposures sym)
    → Kept (update states sym st) positions exposures
Kept-update states sym st k b = record {
  at = λ s. elim (Bool-cases (s == sym)) [
    | inl here ↦ let at : s ≡ sym = ground arith in rw (here, at) b
    | inr other ↦ rw other (k.at s)
  ];
}

module _ {positions exposures : ℕ → ℤ} where
  pub set_halted-Kept :
      (g : ExecutionGateway) (sym halted : ℕ)
      → Kept g.states positions exposures
      → Kept (set_halted g sym halted).states positions exposures
  unfolding set_halted with_state
  set_halted-Kept g sym halted k = Kept-update g.states sym _ k (record {
    slots = (k.at sym).slots;
    count = (k.at sym).count;
    net = (k.at sym).net;
    gross = (k.at sym).gross;
  })

  pub count_reject-Kept :
      (g : ExecutionGateway) (sym : ℕ)
      → Kept g.states positions exposures
      → Kept (count_reject g sym).states positions exposures
  unfolding count_reject with_state
  count_reject-Kept g sym k = Kept-update g.states sym _ k (record {
    slots = (k.at sym).slots;
    count = (k.at sym).count;
    net = (k.at sym).net;
    gross = (k.at sym).gross;
  })

  pub roll_back-Kept :
      (g : ExecutionGateway) (intent : OrderIntent)
      → Kept g.states positions exposures
      → search_orders (has_open_id intent.client_order_id) (g.states intent.symbol_idx).orders
        ≡ none
      → (reserve_order_slot (g.states intent.symbol_idx) intent).1 ≡ true
      → Kept
          (roll_back
            (with_state g intent.symbol_idx
              (reserve_order_slot (g.states intent.symbol_idx) intent).0)
            intent).states
          positions
          exposures
  unfolding roll_back record_failure release_slot cancel with_state
  roll_back-Kept g intent k fresh done =
      let sym = intent.symbol_idx in
      let reserved = (reserve_order_slot (g.states sym) intent).0 in
      let placed = update g.states sym reserved in
      let kept =
        Kept-update g.states sym reserved k
          (reserve_order_slot-Books (g.states sym) intent (k.at sym)) in
      let emptied : Books (release_order_slot (placed sym) intent) (positions sym) (exposures sym) =
        rw (update_self g.states sym reserved)
          (release_order_slot-Books (g.states sym) intent (k.at sym) fresh done) in
      count_reject-Kept
        (release_slot
          (with_state (with_state g sym reserved) sym (release_order_slot (placed sym) intent)))
        sym (Kept-update placed sym _ kept emptied)

  pub commit-Kept :
      (g : ExecutionGateway) (intent : OrderIntent) (built : OutboundPacket) (audit recovery : Bool)
      → Kept g.states positions exposures
      → search_orders (has_open_id intent.client_order_id) (g.states intent.symbol_idx).orders
        ≡ none
      → Kept (commit g intent built audit recovery).gateway.states positions exposures
  unfolding commit refuse record_failure release_slot cancel with_state
  commit-Kept g intent built audit recovery k fresh =
      let sym = intent.symbol_idx in
      let registered = Ledger.register_order g.ledger intent.client_order_id intent.qty in
      let listed : ExecutionGateway = record g { ledger = registered.0 } in
      let reserved = reserve_order_slot (g.states sym) intent in
      let kept =
        Kept-update g.states sym reserved.0 k
          (reserve_order_slot-Books (g.states sym) intent (k.at sym)) in
      elim (Bool-cases registered.1) [
        | inr unlisted ↦ rw unlisted (count_reject-Kept (release_slot listed) sym k)
        | inl is_listed ↦ elim (Bool-cases reserved.1) [
          | inr unplaced ↦ rw (is_listed, unplaced) kept
          | inl done ↦
              rw (is_listed, done)
                (if_cases (λ (a : Answer). Kept a.gateway.states positions exposures)
                  (not audit || not recovery) _ _ (roll_back-Kept listed intent k fresh done) kept)
        ]
      ]

  pub check-Kept :
      (g : ExecutionGateway) (intent : OrderIntent) (packet : OutboundPacket)
      (audit recovery : Bool)
      → Kept g.states positions exposures
      → search_orders (has_open_id intent.client_order_id) (g.states intent.symbol_idx).orders
        ≡ none
      → Kept (check g intent packet audit recovery).gateway.states positions exposures
  unfolding check refuse release_slot
  check-Kept g intent packet audit recovery k fresh =
      let sym = intent.symbol_idx in
      let risk = (g.states sym).risk in
      let decision = evaluate (g.limits sym) risk intent in
      let counted = count_reject-Kept (release_slot g) sym k in
      elim (Bool-cases decision.pass) [
        | inr bad ↦ rw bad counted
        | inl good ↦ elim (Bool-cases (ltb risk.order_count max_active_orders)) [
          | inr full ↦
              rw (good, full) (set_halted-Kept (count_reject (release_slot g) sym) sym 1 counted)
          | inl room ↦ elim (Option-cases (build_enter_order g.initialised intent packet)) [
            | inl unbuilt ↦ rw (good, room, unbuilt) counted
            | inr (built, is_built) ↦
                rw (good, room, is_built) (commit-Kept g intent built audit recovery k fresh)
          ]
        ]
      ]

  replace_found-Kept :
      (g : ExecutionGateway) (intent : OrderReplaceIntent) (o : ActiveOrder)
      (packet : OutboundPacket) (audit : Bool)
      → Kept g.states positions exposures
      → Kept (replace_found g intent o packet audit).gateway.states positions exposures
  unfolding replace_found refuse record_failure
  replace_found-Kept g intent o packet audit k =
      let risk = (g.states intent.symbol_idx).risk in
      let asked = test_intent intent o in
      let counted = count_reject-Kept g intent.symbol_idx k in
      elim (Bool-cases (evaluate (g.limits intent.symbol_idx) risk asked).pass) [
        | inr bad ↦ rw bad counted
        | inl good ↦ elim (Option-cases (build_replace_order g.initialised intent packet)) [
          | inl unbuilt ↦ rw (good, unbuilt) counted
          | inr (built, is_built) ↦ elim (Bool-cases audit) [
            | inl logged ↦ rw (good, is_built, logged) k
            | inr unlogged ↦ rw (good, is_built, unlogged) counted
          ]
        ]
      ]

-- A new order, accepted or refused at any point, rolled back or not, leaves the books of the fills
-- of every symbol as they are, if no open order of its symbol has its id.
pub try_build-Kept :
    (g : ExecutionGateway) (intent : OrderIntent) (packet : OutboundPacket) (audit recovery : Bool)
    {positions exposures : ℕ → ℤ}
    → Kept g.states positions exposures
    → search_orders (has_open_id intent.client_order_id) (g.states intent.symbol_idx).orders ≡ none
    → Kept (try_build g intent packet audit recovery).gateway.states positions exposures
unfolding try_build refuse
try_build-Kept g intent packet audit recovery {positions} {exposures} k fresh =
    let sym = intent.symbol_idx in
    let acquired = try_acquire g.limiter in
    let asked : ExecutionGateway = record g {
      breaker = (Breaker.allow g.breaker intent.now_ns).0;
    } in
    let taken : ExecutionGateway = record asked { limiter = acquired.0 } in
    let KeptBy = λ (a : Answer). Kept a.gateway.states positions exposures in
    if_cases KeptBy (not g.attached || leb Config.symbols sym) _ _ k (
      if_cases KeptBy (not (Breaker.allow g.breaker intent.now_ns).1) _ _
        (set_halted-Kept (count_reject asked sym) sym 1 (count_reject-Kept asked sym k))
        (if_cases KeptBy (not acquired.1) _ _
          (set_halted-Kept (count_reject taken sym) sym 1 (count_reject-Kept taken sym k))
          (check-Kept taken intent packet audit recovery k fresh)))

-- A request to replace an order leaves the books of the fills as they are: the order changes when
-- the venue reports it.
pub try_replace-Kept :
    (g : ExecutionGateway) (intent : OrderReplaceIntent) (packet : OutboundPacket) (audit : Bool)
    {positions exposures : ℕ → ℤ}
    → Kept g.states positions exposures
    → Kept (try_replace g intent packet audit).gateway.states positions exposures
unfolding try_replace refuse
try_replace-Kept g intent packet audit {positions} {exposures} k =
    let sym = intent.symbol_idx in
    let allowed = Breaker.allow g.breaker intent.now_ns in
    let asked : ExecutionGateway = record g { breaker = allowed.0 } in
    let counted = count_reject-Kept asked sym k in
    elim (Bool-cases (not g.attached || leb Config.symbols sym)) [
      | inl gone ↦ rw gone k
      | inr there ↦ elim (Bool-cases allowed.1) [
        | inr shut ↦ rw (there, shut) (set_halted-Kept (count_reject asked sym) sym 1 counted)
        | inl may ↦ elim (Bool-cases (Ledger.contains g.ledger intent.original_order_id)) [
          | inr unknown ↦ rw (there, may, unknown) counted
          | inl known ↦
              elim (Option-cases
                (search_orders (has_open_id intent.original_order_id) (g.states sym).orders)) [
                  | inl unplaced ↦ rw (there, may, known, unplaced) counted
                  | inr ((slot, o), found) ↦
                      rw (there, may, known, found)
                        (replace_found-Kept asked intent o packet audit k)
                ]
        ]
      ]
    ]
