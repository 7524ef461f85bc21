-- ===== src/Exec/Reports.antt =====
-- luv_execution.hpp, `ExecutionGateway`: the reports of the venue, cancellation and the queries. What
-- the recovery ledger and the subscriber answer is an argument, and so are the clocks.
pub mod Books
pub mod Fills
use luv_flicker.Base.{
  ℕ, zero, suc, ◌+◌, ◌-◌, ◌%◌, ◌^◌, ℤ, pos, ◌-ℤ◌, eqb_ℤ, ltb_ℤ, leb_ℤ, Bool, true, false, not, ◌&&◌,
  ◌||◌, Option, none, some, if◌then◌else◌, ◌==◌, leb, ltb, update,
}
use luv_flicker.Arena.Config
use luv_flicker.Arena.Orders.{ActiveOrder, RiskState, SymbolExecState}
use luv_flicker.Exec.Slots.{search_orders, has_id, has_open_id, close_slot, fill_slot, replace_slot}
use luv_flicker.Exec.Gateway.{
  ExecutionGateway, with_state, set_halted, count_reject, release_slot, record_failure, cancel,
}
use luv_flicker.Safety.Breaker
use luv_flicker.Safety.Ledger
use luv_flicker.Safety.Ledger.{ExecutionReport}

-- `_breaker.trip()`: the time stamp is 0.
unfoldable pub trip : ExecutionGateway → ExecutionGateway
trip g = record g { breaker = Breaker.trip g.breaker 0 }

-- `state.risk.halted = 1; _breaker.trip(); return false;`
unfoldable pub mismatch : ExecutionGateway → ℕ → ExecutionGateway × Bool
unfolding trip set_halted
mismatch g sym = (trip (set_halted g sym 1), false)

-- `!_arena || symbol >= Config::kSymbols`
unfoldable pub unreachable : ExecutionGateway → ℕ → Bool
unreachable g sym = not g.attached || leb Config.symbols sym

-- The clamp of the wall clock to a growing time stamp.
unfoldable pub next_utc_fill_timestamp_ns : ExecutionGateway → ℕ → ℕ
next_utc_fill_timestamp_ns g clock =
    if leb clock g.last_fill_timestamp_ns && not (g.last_fill_timestamp_ns == 2 ^ 64 - 1)
    then g.last_fill_timestamp_ns + 1
    else clock

-- The counters of a fill. `subscriber` is what the callback answers, if there is one.
unfoldable pub note_fill : ExecutionGateway → Option Bool → ℕ → ExecutionGateway
unfolding next_utc_fill_timestamp_ns
note_fill g subscriber clock =
    let counted = record g { fill_report_count = (g.fill_report_count + 1) % 2 ^ 64 } in
    let stamped = record counted { last_fill_timestamp_ns = next_utc_fill_timestamp_ns g clock } in
    elim subscriber [
      | none ↦ counted
      | some true ↦ stamped
      | some false ↦ record stamped {
        dropped_fill_notifications = (g.dropped_fill_notifications + 1) % 2 ^ 64;
      }
    ]

-- `apply_execution_report` behind all tests.
unfoldable pub fill :
    ExecutionGateway → ℕ → ExecutionReport → ℕ → ActiveOrder → Option Bool → ℕ → ExecutionGateway
unfolding with_state note_fill release_slot
fill g sym report slot o subscriber clock =
    let filled = fill_slot (g.states sym) slot o report.filled_quantity report.terminal in
    let noted = note_fill (with_state g sym filled) subscriber clock in
    if report.terminal || eqb_ℤ (o.qty -ℤ report.filled_quantity) (pos 0)
    then release_slot noted
    else noted

unfoldable pub apply_execution_report :
    ExecutionGateway
    → ℕ
    → ExecutionReport
    → (recovery_ok : Bool) → Option Bool
    → (clock : ℕ) → ExecutionGateway × Bool
unfolding unreachable trip mismatch fill
apply_execution_report g sym report recovery_ok subscriber clock =
    let applied = Ledger.apply g.ledger report in
    let told = record g { ledger = applied.0 } in
    if unreachable g sym
    then (trip g, false)
    else elim (search_orders (has_id report.order_id) (g.states sym).orders) [
      | none ↦ mismatch g sym
      | some (slot, o) ↦
          if leb_ℤ report.filled_quantity (pos 0)
            || ltb_ℤ o.qty report.filled_quantity
            || not (Ledger.contains g.ledger report.order_id)
            || not recovery_ok
          then mismatch g sym
          else if not applied.1
          then mismatch told sym
          else (fill told sym report slot o subscriber clock, true)
    ]

-- An order leaves its slot, the risk state and the rate limiter.
unfoldable pub close : ExecutionGateway → ℕ → ℕ → ActiveOrder → ExecutionGateway
unfolding with_state release_slot
close g sym slot o =
    release_slot (with_state g sym (close_slot (g.states sym) slot o.side o.price o.qty))

unfoldable pub apply_cancel_report :
    ExecutionGateway → ℕ → ℕ → (recovery_ok : Bool) → ExecutionGateway × Bool
unfolding unreachable trip mismatch close
apply_cancel_report g sym order_id recovery_ok =
    let cancelled = Ledger.cancel g.ledger order_id in
    let told = record g { ledger = cancelled.0 } in
    if unreachable g sym
    then (trip g, false)
    else elim (search_orders (has_id order_id) (g.states sym).orders) [
      | none ↦ mismatch g sym
      | some (slot, o) ↦
          if o.state == 3
          then (g, false)
          else if not (Ledger.contains g.ledger order_id) || not recovery_ok
          then mismatch g sym
          else if not cancelled.1
          then mismatch told sym
          else (close told sym slot o, true)
    ]

unfoldable pub apply_replace_report :
    ExecutionGateway → ℕ → ℕ → ℤ → ℤ → (recovery_ok : Bool) → ExecutionGateway × Bool
unfolding unreachable trip mismatch with_state
apply_replace_report g sym order_id new_qty new_price recovery_ok =
    let replaced = Ledger.replace g.ledger order_id new_qty in
    let told = record g { ledger = replaced.0 } in
    if unreachable g sym
    then (trip g, false)
    else elim (search_orders (has_open_id order_id) (g.states sym).orders) [
      | none ↦ mismatch g sym
      | some (slot, o) ↦
          if not (Ledger.contains g.ledger order_id)
            || leb_ℤ new_qty (pos 0)
            || leb_ℤ new_price (pos 0)
            || not recovery_ok
          then mismatch g sym
          else if not replaced.1
          then mismatch told sym
          else (with_state told sym (replace_slot (g.states sym) slot o new_qty new_price), true)
    ]

-- The count of a reject, the breaker and the halt at the limit.
unfoldable pub note_reject : ExecutionGateway → ℕ → ℕ → ExecutionGateway
unfolding count_reject set_halted
note_reject g sym now_ns =
    let counted = count_reject g sym in
    let told = record counted { breaker = Breaker.record_rejection g.breaker now_ns } in
    if leb (g.limits sym).max_consecutive_rejections (counted.states sym).risk.reject_count
    then set_halted told sym 1
    else told

unfoldable pub apply_reject_report :
    ExecutionGateway → ℕ → ℕ → (now_ns : ℕ) → ExecutionGateway × Bool
unfolding unreachable note_reject close cancel record_failure
apply_reject_report g sym order_id now_ns =
    let noted = note_reject g sym now_ns in
    if unreachable g sym
    then (record_failure g now_ns, false)
    else elim (search_orders (has_id order_id) (g.states sym).orders) [
      | none ↦ (noted, false)
      | some (slot, o) ↦
          if o.state == 3 then (g, false) else (close (cancel noted order_id) sym slot o, true)
    ]

-- The loop over the symbols from `sym` on, with those left as fuel: the first symbol that has the
-- order, and the order.
unfoldable pub search_symbols :
    (ActiveOrder → Bool) → (ℕ → SymbolExecState) → ℕ → ℕ → Option (ℕ × ActiveOrder)
search_symbols p states zero sym = none
search_symbols p states (suc n) sym =
    let rest = search_symbols p states n (sym + 1) in
    elim (search_orders p (states sym).orders) [ none ↦ rest | some (slot, o) ↦ some (sym, o) ]

unfoldable pub query_order : ExecutionGateway → ℕ → Option ActiveOrder
query_order g order_id =
    if not g.attached || order_id == 0
    then none
    else elim (search_symbols (has_id order_id) g.states Config.symbols 0) [
      | none ↦ none
      | some (sym, o) ↦ some o
    ]

unfoldable pub query_position : ExecutionGateway → ℕ → Option RiskState
unfolding unreachable
query_position g sym = if unreachable g sym then none else some (g.states sym).risk

unfoldable pub cancel_order : ExecutionGateway → ℕ → (recovery_ok : Bool) → ExecutionGateway × Bool
unfolding apply_cancel_report
cancel_order g order_id recovery_ok =
    if not g.attached || order_id == 0
    then (g, false)
    else elim (search_symbols (has_open_id order_id) g.states Config.symbols 0) [
      | none ↦ (g, false)
      | some (sym, o) ↦ apply_cancel_report g sym order_id recovery_ok
    ]
