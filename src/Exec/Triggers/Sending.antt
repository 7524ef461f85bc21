-- ===== src/Exec/Triggers/Sending.antt =====
-- The table of triggers of luv_execution.hpp: its count of active triggers, and what it sends.
use luv_flicker.Base.{
  ℕ, ◌+◌, ◌≡◌, ◌≢◌, ◌≤◌, ◌<◌, ◌⊎◌, ℤ, Bool, false, ◌||◌, List, [], ◌∷◌, Option, some, if◌then◌else◌,
  ◌==◌, leb, update, arith, refl, Bool-cases, Option-cases, inl, inr,
}
use luv_flicker.Arena.Config
use luv_flicker.Exec.Types.{OrderIntent}
use luv_flicker.Exec.Ouch.{OutboundPacket, build_enter_order}
use luv_flicker.Exec.Gateway.{ExecutionGateway, try_build}
use luv_flicker.Exec.Gateway.Outcome.{try_build-Settles}
use luv_flicker.Exec.Triggers.{
  ConditionalOrder, StopOrderTable, place_trigger, register_trigger, drop_trigger, count_off,
  cancel_trigger, fires, send, route, evaluate_bbo, Routing,
}

abbrev held : ConditionalOrder → ℕ
held t = if t.active == 0 then 0 else 1

unfoldable pub active_in : List ConditionalOrder → ℕ
active_in [] = 0
active_in (t ∷ ts) = held t + active_in ts

-- The count of the table is the number of its active triggers.
unfoldable pub IsCounted : StopOrderTable → Type 0
IsCounted table = table.active_count ≡ active_in table.triggers

place_trigger-counts :
    (order : ConditionalOrder) (i : ℕ) (ts : List ConditionalOrder) {ts' : List ConditionalOrder}
    → place_trigger order i ts ≡ some ts'
    → active_in ts' ≡ active_in ts + 1
unfolding place_trigger active_in
place_trigger-counts order i [] e = ground arith
place_trigger-counts order i (t ∷ ts) {ts'} e =
    elim (Option-cases (place_trigger order (i + 1) ts)) [
      | inl full ↦ ground arith
      | inr (us, placed) ↦
          let rest = place_trigger-counts order (i + 1) ts {ts' = us} placed in ground arith
    ]

drop_trigger-counts :
    (id : ℕ) (ts : List ConditionalOrder) {ts' : List ConditionalOrder}
    → drop_trigger id ts ≡ some ts'
    → active_in ts' + 1 ≡ active_in ts
unfolding drop_trigger active_in
drop_trigger-counts id [] e = ground arith
drop_trigger-counts id (t ∷ ts) {ts'} e = elim (Option-cases (drop_trigger id ts)) [
  | inl unknown ↦ ground arith
  | inr (us, dropped) ↦ let rest = drop_trigger-counts id ts {ts' = us} dropped in ground arith
]

-- Registering and cancelling a trigger keep the count.
pub register_trigger-IsCounted :
    (table : StopOrderTable) (order : ConditionalOrder)
    → IsCounted table
    → IsCounted (register_trigger table order).0
unfolding register_trigger IsCounted
register_trigger-IsCounted table order c =
    elim (Option-cases (place_trigger order 0 table.triggers)) [
      | inl full ↦ ground arith
      | inr (ts, placed) ↦
          let counts = place_trigger-counts order 0 table.triggers {ts' = ts} placed in ground arith
    ]

pub cancel_trigger-IsCounted :
    (table : StopOrderTable) (id : ℕ) → IsCounted table → IsCounted (cancel_trigger table id).0
unfolding cancel_trigger IsCounted count_off
cancel_trigger-IsCounted table id c = elim (Option-cases (drop_trigger id table.triggers)) [
  | inl unknown ↦ ground arith
  | inr (ts, dropped) ↦
      let counts = drop_trigger-counts id table.triggers {ts' = ts} dropped in ground arith
]

-- Every packet that counts as routed holds an order.
unfoldable pub Filled : Routing → Type 0
Filled r = (j : ℕ) → j < r.routed → (r.packets j).len ≡ 48

-- What the run from `r` on does to the counts.
record Moves (before after : ℕ) (r r' : Routing) : Type 0 where
  pub active : r'.active_count + before ≡ r.active_count + after
  pub sent : r'.routed + after ≡ r.routed + before
  pub filled : Filled r'

accepted-len :
    (initialised : Bool) (intent : OrderIntent) (packet : OutboundPacket) {built : OutboundPacket}
    → build_enter_order initialised intent packet ≡ some built
    → built.len ≡ 48
unfolding build_enter_order
accepted-len initialised intent packet e = ground arith

-- A packet at the place `routed`, which counts if it holds an order.
Filled-update :
    (r r' : Routing) (packet : OutboundPacket)
    → r'.packets ≡ update r.packets r.routed packet
    → (r'.routed ≡ r.routed) ⊎ ((r'.routed ≡ r.routed + 1) × (packet.len ≡ 48))
    → Filled r
    → Filled r'
unfolding Filled
Filled-update r r' packet put counts f j low = elim (Bool-cases (j == r.routed)) [
  | inl here ↦ rw (put, here) (ground arith)
  | inr other ↦ rw (put, other) (f j (ground arith))
]

count_off-active : {n : ℕ} → 1 ≤ n → count_off n + 1 ≡ n + 0
unfolding count_off
count_off-active h = ground arith

send-Moves :
    (t : ConditionalOrder) (intent : OrderIntent) (audit recovery : Bool) (r : Routing)
    → t.active ≢ 0
    → 1 ≤ r.active_count
    → Filled r
    → let (t', r') = send t intent audit recovery r in Moves (held t) (held t') r r'
unfolding send count_off
send-Moves t intent audit recovery r on some_active f =
    let packet = r.packets r.routed in
    let a = try_build r.gateway intent packet audit recovery in
    elim (try_build-Settles r.gateway intent packet audit recovery) [
      | inl (refused, empty) ↦ rw refused (record {
        active = refl;
        sent = refl;
        filled =
            Filled-update r
              (record r { gateway = a.gateway; packets = update r.packets r.routed a.packet })
              a.packet refl (inl refl) f;
      })
      | inr (passed, accepted) ↦
          let len = accepted-len r.gateway.initialised intent packet accepted.built in
          let was : (t.active == 0) ≡ false = ground arith in
          rw (passed, was)
            (record {
              active = count_off-active some_active;
              sent = omega arith;
              filled =
                  Filled-update r
                    (record {
                      gateway = a.gateway;
                      packets = update r.packets r.routed a.packet;
                      routed = r.routed + 1;
                      active_count = count_off r.active_count;
                    })
                    a.packet refl (inr (refl, len)) f;
            })
    ]

route-Moves :
    (fire : ConditionalOrder → Option OrderIntent) (max_packets : ℕ) (audit recovery : ℕ → Bool)
    (ts : List ConditionalOrder) (i : ℕ) (r : Routing)
    → ((t : ConditionalOrder) (intent : OrderIntent) → fire t ≡ some intent → t.active ≢ 0)
    → active_in ts ≤ r.active_count
    → Filled r
    → let (ts', r') = route fire max_packets audit recovery ts i r in
      Moves (active_in ts) (active_in ts') r r'
unfolding route active_in
route-Moves fire max audit recovery [] i r only enough f = record {
  active = refl;
  sent = refl;
  filled = f;
}
route-Moves fire max audit recovery (t ∷ ts) i r only enough f =
    elim (Bool-cases (leb max r.routed)) [
      | inl full ↦ rw full (record { active = refl; sent = refl; filled = f })
      | inr room ↦ elim (Option-cases (fire t)) [
        | inl quiet ↦
            let rest = route-Moves fire max audit recovery ts (i + 1) r only (omega arith) f in
            rw (room, quiet)
              (record {
                active = omega (arith, rest.active);
                sent = omega (arith, rest.sent);
                filled = rest.filled;
              })
        | inr (intent, fired) ↦
            let on = only t intent fired in
            let one : held t ≡ 1 = ground arith in
            let first = send-Moves t intent (audit i) (recovery i) r on (omega arith) f in
            let after = (send t intent (audit i) (recovery i) r).1 in
            let rest =
              route-Moves fire max audit recovery ts (i + 1) after only
                (omega (arith, first.active)) first.filled in
            rw (room, fired)
              (record {
                active = omega (arith, first.active, rest.active);
                sent = omega (arith, first.sent, rest.sent);
                filled = rest.filled;
              })
      ]
    ]

fires-active :
    (symbol : ℕ) (bid ask : ℤ) (now_ns : ℕ) (t : ConditionalOrder) (intent : OrderIntent)
    → fires t symbol bid ask now_ns ≡ some intent
    → t.active ≢ 0
unfolding fires
fires-active symbol bid ask now_ns t intent e = ground arith

module _ (table : StopOrderTable) (symbol : ℕ) (bid ask : ℤ) (now_ns : ℕ) (g : ExecutionGateway)
    (packets : ℕ → OutboundPacket) (max_packets : ℕ) (audit recovery : ℕ → Bool) where
  evaluate_bbo-moves :
      IsCounted table
      → let (table', r) =
          evaluate_bbo table symbol bid ask now_ns g packets max_packets audit recovery in
        IsCounted table' × (table'.active_count + r.routed ≡ table.active_count) × Filled r
  unfolding evaluate_bbo IsCounted Filled
  evaluate_bbo-moves c =
      let start : Routing = record {
        gateway = g;
        packets = packets;
        routed = 0;
        active_count = table.active_count;
      } in
      let fire = λ (t : ConditionalOrder). fires t symbol bid ask now_ns in
      let moves =
        route-Moves fire max_packets audit recovery table.triggers 0 start
          (fires-active symbol bid ask now_ns) (omega arith) (λ j low. absurd (omega arith)) in
      let idle = leb Config.symbols symbol || (table.active_count == 0) || (max_packets == 0) in
      elim (Bool-cases idle) [
        | inl skips ↦ rw skips (c, omega arith, λ j low. absurd (omega arith))
        | inr runs ↦
            rw runs
              (omega (arith, moves.active), omega (arith, moves.active, moves.sent), moves.filled)
      ]

  -- On a table whose count is the number of its active triggers, a change of the best prices keeps it
  -- so, and the count falls by the number of orders that it says it has sent.
  pub evaluate_bbo-IsCounted :
      IsCounted table
      → let (table', r) =
          evaluate_bbo table symbol bid ask now_ns g packets max_packets audit recovery in
        IsCounted table' × (table'.active_count + r.routed ≡ table.active_count)
  evaluate_bbo-IsCounted c = let (counted, sent, filled) = evaluate_bbo-moves c in (counted, sent)

  -- On a table whose count is right, each packet that a change of the best prices counts as sent holds
  -- a whole order, of 48 bytes.
  pub evaluate_bbo-filled :
      (j : ℕ)
      → IsCounted table
      → j < (evaluate_bbo table symbol bid ask now_ns g packets max_packets audit recovery).1.routed
      → ((evaluate_bbo table symbol bid ask now_ns g packets max_packets audit recovery).1.packets
          j).len
        ≡ 48
  unfolding Filled
  evaluate_bbo-filled j c low = let (counted, sent, filled) = evaluate_bbo-moves c in filled j low
