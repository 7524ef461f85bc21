-- ===== src/Exec/Triggers.antt =====
-- luv_execution.hpp, `StopOrderTable`: stop and pegged orders, and what a change of the best prices
-- sends to the gateway.
pub mod Sending
use luv_flicker.Base.{
  ℕ, zero, suc, ◌+◌, ◌-◌, ◌%◌, ◌^◌, ◌/◌, ℤ, pos, ◌+ℤ◌, pos_part, ltb_ℤ, leb_ℤ, Bool, true, false,
  not, ◌&&◌, ◌||◌, List, [], ◌∷◌, Option, none, some, if◌then◌else◌, ◌==◌, leb, ltb, length, set,
  get_elem?, replicate, update,
}
use luv_flicker.Arena.Config
use luv_flicker.Exec.Types.{OrderIntent, buy, sell}
use luv_flicker.Exec.Ouch.{OutboundPacket}
use luv_flicker.Exec.Gateway.{ExecutionGateway, Answer, try_build}

pub data TriggerType : Type 0 where
  stop_loss stop_limit pegged_bid pegged_ask pegged_mid : TriggerType

pub record ConditionalOrder : Type 0 where
  pub trigger_id : ℕ
  pub symbol_idx : ℕ
  pub side : ℕ
  pub trigger_type : TriggerType
  pub stop_price : ℤ
  pub limit_price : ℤ
  pub peg_offset : ℤ
  pub qty : ℤ
  pub client_order_id : ℕ
  pub time_in_force : ℕ
  pub active : ℕ

-- `ConditionalOrder{}`
abbrev pub no_trigger : ConditionalOrder
no_trigger = record {
  trigger_id = 0;
  symbol_idx = 0;
  side = buy;
  trigger_type = stop_loss;
  stop_price = pos 0;
  limit_price = pos 0;
  peg_offset = pos 0;
  qty = pos 0;
  client_order_id = 0;
  time_in_force = 0;
  active = 0;
}

abbrev pub max_triggers : ℕ
max_triggers = 1024

pub record StopOrderTable : Type 0 where
  pub triggers : List ConditionalOrder
  pub active_count : ℕ

abbrev pub empty_table : StopOrderTable
empty_table = record { triggers = replicate max_triggers no_trigger; active_count = 0 }

-- The first inactive place, from the place `i` on.
unfoldable pub place_trigger :
    ConditionalOrder → ℕ → List ConditionalOrder → Option (List ConditionalOrder)
place_trigger order i [] = none
place_trigger order i (t ∷ ts) =
    let rest = place_trigger order (i + 1) ts in
    let placed = record order { active = 1; trigger_id = (i + 1) % 2 ^ 32 } in
    if t.active == 0
    then some (placed ∷ ts)
    else elim rest [ none ↦ none | some ts' ↦ some (t ∷ ts') ]

unfoldable pub register_trigger : StopOrderTable → ConditionalOrder → StopOrderTable × Bool
unfolding place_trigger
register_trigger table order =
    if order.client_order_id == 0 || leb_ℤ order.qty (pos 0) || leb Config.symbols order.symbol_idx
    then (table, false)
    else elim (place_trigger order 0 table.triggers) [
      | none ↦ (table, false)
      | some ts ↦ (record { triggers = ts; active_count = table.active_count + 1 }, true)
    ]

unfoldable pub drop_trigger : ℕ → List ConditionalOrder → Option (List ConditionalOrder)
drop_trigger order_id [] = none
drop_trigger order_id (t ∷ ts) =
    let rest = drop_trigger order_id ts in
    if not (t.active == 0) && (t.client_order_id == order_id)
    then some (record t { active = 0 } ∷ ts)
    else elim rest [ none ↦ none | some ts' ↦ some (t ∷ ts') ]

unfoldable pub count_off : ℕ → ℕ
count_off n = if n == 0 then 0 else n - 1

unfoldable pub cancel_trigger : StopOrderTable → ℕ → StopOrderTable × Bool
unfolding drop_trigger count_off
cancel_trigger table order_id =
    if order_id == 0 then (table, false) else elim (drop_trigger order_id table.triggers) [
      | none ↦ (table, false)
      | some ts ↦ (record { triggers = ts; active_count = count_off table.active_count }, true)
    ]

unfoldable pub get : StopOrderTable → ℕ → Option ConditionalOrder
get table index = elim (get_elem? table.triggers index) [
  | none ↦ none
  | some t ↦ if t.active == 0 then none else some t
]

-- The price of a stop order that the market has reached.
unfoldable pub stop_trigger : ConditionalOrder → ℤ → ℤ → Option ℤ
stop_trigger t best_bid best_ask =
    if (t.side == buy) && ltb_ℤ (pos 0) best_ask && leb_ℤ t.stop_price best_ask
    then some best_ask
    else if (t.side == sell) && ltb_ℤ (pos 0) best_bid && leb_ℤ best_bid t.stop_price
    then some best_bid
    else none

-- The switch over the type: the order price, where the trigger fires.
unfoldable pub triggered_price : ConditionalOrder → TriggerType → ℤ → ℤ → Option ℤ
unfolding stop_trigger
triggered_price t stop_loss best_bid best_ask = stop_trigger t best_bid best_ask
triggered_price t stop_limit best_bid best_ask = elim (stop_trigger t best_bid best_ask) [
  | none ↦ none
  | some price ↦ some (if ltb_ℤ (pos 0) t.limit_price then t.limit_price else price)
]
triggered_price t pegged_bid best_bid best_ask =
    if ltb_ℤ (pos 0) best_bid then some (best_bid +ℤ t.peg_offset) else none
triggered_price t pegged_ask best_bid best_ask =
    if ltb_ℤ (pos 0) best_ask then some (best_ask +ℤ t.peg_offset) else none
triggered_price t pegged_mid best_bid best_ask =
    if ltb_ℤ (pos 0) best_bid && ltb_ℤ (pos 0) best_ask
    then some (pos (pos_part (best_bid +ℤ best_ask) / 2) +ℤ t.peg_offset)
    else none

unfoldable pub trigger_intent : ConditionalOrder → ℤ → ℕ → OrderIntent
trigger_intent t price now_ns = record {
  symbol_idx = t.symbol_idx;
  side = t.side;
  qty = t.qty;
  price = price;
  alpha_timestamp_ns = now_ns;
  now_ns = now_ns;
  client_order_id = t.client_order_id;
  time_in_force = t.time_in_force;
}

-- The order that a trigger sends: it is active, of the symbol, and fires at a positive price.
unfoldable pub fires : ConditionalOrder → ℕ → ℤ → ℤ → ℕ → Option OrderIntent
unfolding triggered_price trigger_intent
fires t symbol best_bid best_ask now_ns =
    if t.active == 0 || not (t.symbol_idx == symbol)
    then none
    else elim (triggered_price t t.trigger_type best_bid best_ask) [
      | none ↦ none
      | some price ↦ if ltb_ℤ (pos 0) price then some (trigger_intent t price now_ns) else none
    ]

-- The gateway, the packets and the counts of a run of `evaluate_bbo`.
pub record Routing : Type 0 where
  pub gateway : ExecutionGateway
  pub packets : ℕ → OutboundPacket
  pub routed : ℕ
  pub active_count : ℕ

-- The body of the loop for a trigger that fires. What the logs answer to the trigger at the place
-- `i` is `audit_ok i` and `recovery_ok i`.
unfoldable pub send :
    ConditionalOrder
    → OrderIntent
    → (audit_ok recovery_ok : Bool) → Routing
    → ConditionalOrder × Routing
unfolding count_off
send t intent audit_ok recovery_ok r =
    let answer = try_build r.gateway intent (r.packets r.routed) audit_ok recovery_ok in
    let told = record r {
      gateway = answer.gateway;
      packets = update r.packets r.routed answer.packet;
    } in
    if answer.decision.pass
    then (
      record t { active = 0 },
      record told { routed = r.routed + 1; active_count = count_off r.active_count },
    )
    else (t, told)

-- The loop from the place `i` on.
unfoldable pub route :
    (ConditionalOrder → Option OrderIntent)
    → (max_packets : ℕ) → (audit_ok recovery_ok : ℕ → Bool) → List ConditionalOrder
    → ℕ
    → Routing
    → List ConditionalOrder × Routing
unfolding send
route fire max_packets audit_ok recovery_ok [] i r = ([], r)
route fire max_packets audit_ok recovery_ok (t ∷ ts) i r =
    let sent : ConditionalOrder × Routing = elim (fire t) [
      | none ↦ (t, r)
      | some intent ↦ send t intent (audit_ok i) (recovery_ok i) r
    ] in
    let rest = route fire max_packets audit_ok recovery_ok ts (i + 1) sent.1 in
    if leb max_packets r.routed then (t ∷ ts, r) else (sent.0 ∷ rest.0, rest.1)

-- `routed` of the result is what the call returns; `packets` is never null here.
unfoldable pub evaluate_bbo :
    StopOrderTable
    → (symbol : ℕ) → (best_bid best_ask : ℤ) → (now_ns : ℕ) → ExecutionGateway
    → (packets : ℕ → OutboundPacket) → (max_packets : ℕ) → (audit_ok recovery_ok : ℕ → Bool)
    → StopOrderTable × Routing
unfolding route
evaluate_bbo table symbol best_bid best_ask now_ns g packets max_packets audit_ok recovery_ok =
    let start : Routing = record {
      gateway = g;
      packets = packets;
      routed = 0;
      active_count = table.active_count;
    } in
    let fire = λ (t : ConditionalOrder). fires t symbol best_bid best_ask now_ns in
    let done = route fire max_packets audit_ok recovery_ok table.triggers 0 start in
    if leb Config.symbols symbol || (table.active_count == 0) || (max_packets == 0)
    then (table, start)
    else (record { triggers = done.0; active_count = done.1.active_count }, done.1)
