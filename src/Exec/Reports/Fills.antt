-- ===== src/Exec/Reports/Fills.antt =====
-- What fills do to the books of the symbols in luv_execution.hpp, and the books over any run of the
-- gateway.
use luv_flicker.Base.{
  ℕ, ◌≡◌, ℤ, pos, ◌+ℤ◌, ◌-ℤ◌, ◌*ℤ◌, ◌≤ℤ◌, eqb_ℤ, ltb_ℤ, leb_ℤ, Bool, true, false, not, ◌&&◌, ◌||◌,
  Option, none, some, if◌then◌else◌, ◌==◌, ltb, update, refl, arith, Bool-cases, inl, inr, if_cases,
}
use luv_flicker.Arena.Config
use luv_flicker.Arena.Orders.{ActiveOrder, SymbolExecState}
use luv_flicker.Exec.Types.{OrderIntent, OrderReplaceIntent, signed_qty_delta}
use luv_flicker.Exec.Ouch.{OutboundPacket}
use luv_flicker.Exec.Slots.{is_open, search_orders, has_id, has_open_id, fill_slot}
use luv_flicker.Exec.Slots.Held.{Books}
use luv_flicker.Exec.Slots.Settled.{fill_slot-Books}
use luv_flicker.Exec.Gateway.{
  ExecutionGateway, with_state, release_slot, try_build, try_replace, set_halted, halt_symbol,
  resume_symbol,
}
use luv_flicker.Exec.Gateway.Admission.{Kept, set_halted-Kept, try_build-Kept, try_replace-Kept}
use luv_flicker.Exec.Reports.{
  trip, mismatch, unreachable, note_fill, fill, apply_execution_report, apply_cancel_report,
  apply_replace_report, apply_reject_report,
}
use luv_flicker.Exec.Reports.Books.{
  mismatch-Kept, apply_cancel_report-Kept, apply_replace_report-Kept, apply_reject_report-Kept,
}
use luv_flicker.Safety.Ledger
use luv_flicker.Safety.Ledger.{ExecutionReport}

-- The fills of all symbols, and one more.
abbrev pub booked : (ℕ → ℤ) → ℕ → ℤ → Bool → ℕ → ℤ
booked amounts sym amount ok = if ok then update amounts sym (amounts sym +ℤ amount) else amounts

Kept-booked :
    (states : ℕ → SymbolExecState) (sym : ℕ) (st : SymbolExecState) (qty worth : ℤ)
    {positions exposures : ℕ → ℤ}
    → Kept states positions exposures
    → Books st (positions sym +ℤ qty) (exposures sym +ℤ worth)
    → Kept (update states sym st) (booked positions sym qty true) (booked exposures sym worth true)
Kept-booked states sym st qty worth k b = record {
  at = λ s. elim (Bool-cases (s == sym)) [ inl here ↦ rw here b | inr other ↦ rw other (k.at s) ];
}

note_fill-states :
    (g : ExecutionGateway) (subscriber : Option Bool) (clock : ℕ)
    → (note_fill g subscriber clock).states ≡ g.states
unfolding note_fill
note_fill-states g none clock = refl
note_fill-states g (some true) clock = refl
note_fill-states g (some false) clock = refl

fill-states :
    (g : ExecutionGateway) (sym : ℕ) (report : ExecutionReport) (slot : ℕ) (o : ActiveOrder)
    (subscriber : Option Bool) (clock : ℕ)
    → (fill g sym report slot o subscriber clock).states
      ≡ update g.states sym (fill_slot (g.states sym) slot o report.filled_quantity report.terminal)
unfolding fill with_state release_slot
fill-states g sym report slot o subscriber clock =
    let st = fill_slot (g.states sym) slot o report.filled_quantity report.terminal in
    let noted = note_fill-states (with_state g sym st) subscriber clock in
    elim (Bool-cases (report.terminal || eqb_ℤ (o.qty -ℤ report.filled_quantity) (pos 0))) [
      | inl done ↦ rw done noted
      | inr partial ↦ rw partial noted
    ]

-- A report for an open order that succeeds books its signed quantity, and its worth at the price of
-- the order, to the fills of its symbol; a report that fails books nothing.
pub apply_execution_report-Kept :
    (g : ExecutionGateway) (sym : ℕ) (report : ExecutionReport) (recovery : Bool)
    (subscriber : Option Bool) (clock : ℕ) {slot : ℕ} {o : ActiveOrder}
    {positions exposures : ℕ → ℤ}
    → Kept g.states positions exposures
    → search_orders (has_id report.order_id) (g.states sym).orders ≡ some (slot, o)
    → is_open o ≡ true
    → let (g', ok) = apply_execution_report g sym report recovery subscriber clock in
      Kept g'.states
        (booked positions sym (signed_qty_delta o.side report.filled_quantity) ok)
        (booked exposures sym (o.price *ℤ report.filled_quantity) ok)
unfolding apply_execution_report trip mismatch
apply_execution_report-Kept g sym report recovery subscriber clock {slot} {o} {positions}
      {exposures} k found live =
    let qty = signed_qty_delta o.side report.filled_quantity in
    let worth = o.price *ℤ report.filled_quantity in
    let P = λ (r : ExecutionGateway × Bool).
      Kept r.0.states (booked positions sym qty r.1) (booked exposures sym worth r.1) in
    let told : ExecutionGateway = record g { ledger = (Ledger.apply g.ledger report).0 } in
    let st = fill_slot (g.states sym) slot o report.filled_quantity report.terminal in
    let refused =
      leb_ℤ report.filled_quantity (pos 0)
      || ltb_ℤ o.qty report.filled_quantity
      || not (Ledger.contains g.ledger report.order_id)
      || not recovery in
    elim (Bool-cases (unreachable g sym)) [
      | inl gone ↦ rw gone k
      | inr there ↦ elim (Bool-cases refused) [
        | inl bad ↦ rw (there, found, bad) (mismatch-Kept g sym k)
        | inr good ↦
            let low : report.filled_quantity ≤ℤ o.qty = ground arith in
            rw (there, found, good)
              (if_cases P (not (Ledger.apply g.ledger report).1) (mismatch told sym)
                (fill told sym report slot o subscriber clock, true) (mismatch-Kept told sym k)
                (rw (fill-states told sym report slot o subscriber clock) (
                  Kept-booked g.states sym st qty worth k (
                    fill_slot-Books (has_id report.order_id) (g.states sym) report.filled_quantity
                      report.terminal found live low (k.at sym)))))
      ]
    ]

-- The gateway, with the fills that were booked so far.
pub record World : Type 0 where
  pub gateway : ExecutionGateway
  pub positions : ℕ → ℤ
  pub exposures : ℕ → ℤ

abbrev pub after_report :
    World → ℕ → ExecutionReport → ActiveOrder → ExecutionGateway × Bool → World
after_report w sym report o r = record {
  gateway = r.0;
  positions = booked w.positions sym (signed_qty_delta o.side report.filled_quantity) r.1;
  exposures = booked w.exposures sym (o.price *ℤ report.filled_quantity) r.1;
}

-- One call of the gateway. A new order has the id of no open order of its symbol, and an execution
-- report finds an open order.
pub data Step : World → World → Type 0 where
  submit :
      (w : World) (intent : OrderIntent) (packet : OutboundPacket) (audit recovery : Bool)
      → search_orders
          (has_open_id intent.client_order_id)
          (w.gateway.states intent.symbol_idx).orders
        ≡ none
      → Step w (record w { gateway = (try_build w.gateway intent packet audit recovery).gateway })
  filled :
      (w : World) (sym : ℕ) (report : ExecutionReport) (recovery : Bool) (subscriber : Option Bool)
      (clock : ℕ) (slot : ℕ) (o : ActiveOrder)
      → search_orders (has_id report.order_id) (w.gateway.states sym).orders ≡ some (slot, o)
      → is_open o ≡ true
      → Step w (
          after_report w sym report o
            (apply_execution_report w.gateway sym report recovery subscriber clock))
  ask_replace :
      (w : World) (intent : OrderReplaceIntent) (packet : OutboundPacket) (audit : Bool)
      → Step w (record w { gateway = (try_replace w.gateway intent packet audit).gateway })
  cancel :
      (w : World) (sym order_id : ℕ) (recovery : Bool)
      → Step w (record w { gateway = (apply_cancel_report w.gateway sym order_id recovery).0 })
  replace :
      (w : World) (sym order_id : ℕ) (qty price : ℤ) (recovery : Bool)
      → Step w (record w {
        gateway = (apply_replace_report w.gateway sym order_id qty price recovery).0;
      })
  reject :
      (w : World) (sym order_id now_ns : ℕ)
      → Step w (record w { gateway = (apply_reject_report w.gateway sym order_id now_ns).0 })
  halt : (w : World) (sym : ℕ) → Step w (record w { gateway = halt_symbol w.gateway sym })
  resume : (w : World) (sym : ℕ) → Step w (record w { gateway = resume_symbol w.gateway sym })

pub data Steps : World → World → Type 0 where
  done : (w : World) → Steps w w
  more : (w v u : World) → Step w v → Steps v u → Steps w u

abbrev pub KeptIn : World → Type 0
KeptIn w = Kept w.gateway.states w.positions w.exposures

Step-Kept : {w v : World} → Step w v → KeptIn w → KeptIn v
unfolding halt_symbol resume_symbol
Step-Kept (submit w intent packet audit recovery fresh) k =
    try_build-Kept w.gateway intent packet audit recovery k fresh
Step-Kept (filled w sym report recovery subscriber clock slot o found live) k =
    apply_execution_report-Kept w.gateway sym report recovery subscriber clock k found live
Step-Kept (ask_replace w intent packet audit) k = try_replace-Kept w.gateway intent packet audit k
Step-Kept (cancel w sym order_id recovery) k =
    apply_cancel_report-Kept w.gateway sym order_id recovery k
Step-Kept (replace w sym order_id qty price recovery) k =
    apply_replace_report-Kept w.gateway sym order_id qty price recovery k
Step-Kept (reject w sym order_id now_ns) k =
    apply_reject_report-Kept w.gateway sym order_id now_ns k
Step-Kept (halt w sym) k =
    if_cases (λ (g : ExecutionGateway). Kept g.states w.positions w.exposures)
      (w.gateway.attached && ltb sym Config.symbols) (set_halted w.gateway sym 1) w.gateway
      (set_halted-Kept w.gateway sym 1 k) k
Step-Kept (resume w sym) k =
    if_cases (λ (g : ExecutionGateway). Kept g.states w.positions w.exposures)
      (w.gateway.attached && ltb sym Config.symbols) (set_halted w.gateway sym 0) w.gateway
      (set_halted-Kept w.gateway sym 0 k) k

-- Where the risk state of every symbol is its fills and its open orders together (each position the
-- signed quantity of both, each exposure their worth, each order count the number of open orders), it
-- is so after any run of new orders, requests to replace, fills, cancels, replaces, rejects, halts and
-- resumptions, in which a new order has the id of no open order of its symbol and an execution report
-- finds an open order.
pub Steps-Kept : {w v : World} → Steps w v → KeptIn w → KeptIn v
Steps-Kept (done w) k = k
Steps-Kept (more w v u step rest) k = Steps-Kept rest (Step-Kept step k)
