-- ===== src/Exec/Fixture.antt =====
-- A gateway of luv_execution.hpp with one open order, for runs.
use luv_flicker.Base.{◌+ℤ◌, ◌*ℤ◌, ◌≡◌, refl, pos, true, false, ◌∷◌, some, replicate}
use luv_flicker.Arena.Orders.{ActiveOrder, SymbolExecState, no_order}
use luv_flicker.Exec.Types.{default_limits, signed_qty_delta}
use luv_flicker.Exec.Slots.{is_open, search_orders, has_id}
use luv_flicker.Exec.Slots.Held.{total, held_qty, held_notional, held_count, open_count}
use luv_flicker.Exec.Gateway.{ExecutionGateway}
use luv_flicker.Exec.Gateway.Admission.{Kept}
use luv_flicker.Safety.Breaker
use luv_flicker.Safety.Ledger.{ReconciliationLedger}

-- 5 to buy at 100, of which nothing is filled.
abbrev pub resting : ActiveOrder
resting = record no_order { order_id = 3; price = pos 100; qty = pos 5; state = 1 }

abbrev pub traded : SymbolExecState
traded = record {
  orders = resting ∷ replicate 63 no_order;
  risk = record {
    net_position = pos 5;
    gross_exposure = pos 500;
    daily_pnl = pos 0;
    max_drawdown = pos 0;
    current_drawdown = pos 0;
    order_count = 1;
    reject_count = 0;
    halted = 0;
  };
}

abbrev pub ledger : ReconciliationLedger
ledger = record { ids = λ s. 0; remaining = λ s. pos 0; open_orders = 0; mismatches = 0 }

abbrev pub gateway : ExecutionGateway
gateway = record {
  attached = true;
  initialised = true;
  limits = λ s. default_limits;
  states = λ s. traded;
  breaker = record {
    max_failures = 1;
    cool_down_ns = 0;
    trip_timestamp_ns = 0;
    failures = 0;
    consecutive_rejections = 0;
    max_consecutive_rejections = 0;
    half_open_enabled = false;
    half_open_max_probes = 1;
    half_open_successes_needed = 1;
    half_open_probes_issued = 0;
    half_open_successes = 0;
    max_rate_per_window = 0;
    rate_window_ns = 0;
    window_start_ns = 0;
    window_count = 0;
    max_loss_limit = pos 0;
    state = Breaker.State.closed;
    tripped = false;
  };
  ledger = ledger;
  limiter = record { max_pending = 10; pending = 1 };
  last_fill_timestamp_ns = 0;
  fill_report_count = 0;
  dropped_fill_notifications = 0;
}

pub found : search_orders (has_id 3) traded.orders ≡ some (0, resting)
unfolding search_orders has_id
found = refl

pub resting-open : is_open resting ≡ true
unfolding is_open
resting-open = refl

-- Nothing is filled, and the risk state is that of the open order.
pub nothing_filled : Kept gateway.states (λ s. pos 0) (λ s. pos 0)
unfolding total held_qty held_notional held_count open_count is_open signed_qty_delta ◌+ℤ◌ ◌*ℤ◌
nothing_filled = record {
  at = λ s. record { slots = refl; count = refl; net = refl; gross = refl };
}
