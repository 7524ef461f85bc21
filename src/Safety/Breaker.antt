-- ===== src/Safety/Breaker.antt =====
-- luv_safety.hpp, `CircuitBreaker`: a state machine over atomics; each call is one step.
pub mod Recovery
use luv_flicker.Base.{
  ℕ, ◌+◌, ◌-◌, ◌%◌, ◌^◌, ℤ, pos, ltb_ℤ, leb_ℤ, Bool, true, false, not, ◌&&◌, ◌||◌, if◌then◌else◌,
  ◌==◌, ltb, leb,
}

pub data State : Type 0 where
  closed opened half_open : State

pub record CircuitBreaker : Type 0 where
  pub max_failures : ℕ
  pub cool_down_ns : ℕ
  pub trip_timestamp_ns : ℕ
  pub failures : ℕ
  pub consecutive_rejections : ℕ
  pub max_consecutive_rejections : ℕ
  pub half_open_enabled : Bool
  pub half_open_max_probes : ℕ
  pub half_open_successes_needed : ℕ
  pub half_open_probes_issued : ℕ
  pub half_open_successes : ℕ
  pub max_rate_per_window : ℕ
  pub rate_window_ns : ℕ
  pub window_start_ns : ℕ
  pub window_count : ℕ
  pub max_loss_limit : ℤ
  pub state : State
  pub tripped : Bool

-- The constructor.
unfoldable pub breaker : ℕ → ℕ → CircuitBreaker
breaker max_failures cool_down_ns = record {
  max_failures = if max_failures == 0 then 1 else max_failures;
  cool_down_ns = cool_down_ns;
  trip_timestamp_ns = 0;
  failures = 0;
  consecutive_rejections = 0;
  max_consecutive_rejections = 0;
  half_open_enabled = false;
  half_open_max_probes = 1;
  half_open_successes_needed = 1;
  half_open_probes_issued = 0;
  half_open_successes = 0;
  max_rate_per_window = 0;
  rate_window_ns = 0;
  window_start_ns = 0;
  window_count = 0;
  max_loss_limit = pos 0;
  state = closed;
  tripped = false;
}

unfoldable pub trip : CircuitBreaker → ℕ → CircuitBreaker
trip b timestamp_ns = record b { trip_timestamp_ns = timestamp_ns; state = opened; tripped = true }

unfoldable pub reset : CircuitBreaker → CircuitBreaker
reset b = record b {
  failures = 0;
  consecutive_rejections = 0;
  half_open_probes_issued = 0;
  half_open_successes = 0;
  trip_timestamp_ns = 0;
  state = closed;
  tripped = false;
}

-- A failure outside of the half-open state: count up to the maximum, and trip there.
unfoldable pub count_failure : CircuitBreaker → ℕ → CircuitBreaker
unfolding trip
count_failure b timestamp_ns =
    let counted =
      if ltb b.failures b.max_failures then record b { failures = b.failures + 1 } else b in
    if leb b.max_failures (b.failures + 1) then trip counted timestamp_ns else counted

abbrev failure_in : State → CircuitBreaker → ℕ → CircuitBreaker
failure_in half_open b timestamp_ns = trip b timestamp_ns
failure_in closed b timestamp_ns = count_failure b timestamp_ns
failure_in opened b timestamp_ns = count_failure b timestamp_ns

unfoldable pub record_failure : CircuitBreaker → ℕ → CircuitBreaker
unfolding trip count_failure
record_failure b timestamp_ns = failure_in b.state b timestamp_ns

unfoldable pub record_rejection : CircuitBreaker → ℕ → CircuitBreaker
unfolding record_failure trip
record_rejection b timestamp_ns =
    let rejections = (b.consecutive_rejections + 1) % 2 ^ 32 in
    let counted = record b { consecutive_rejections = rejections } in
    if ltb 0 b.max_consecutive_rejections
    then if leb b.max_consecutive_rejections rejections
      then trip counted timestamp_ns
      else record_failure counted timestamp_ns
    else record_failure b timestamp_ns

abbrev success_in : State → CircuitBreaker → CircuitBreaker
success_in half_open b =
    let successes = (b.half_open_successes + 1) % 2 ^ 32 in
    let counted = record b { half_open_successes = successes } in
    if leb b.half_open_successes_needed successes then reset counted else counted
success_in closed b = record b { failures = 0; consecutive_rejections = 0 }
success_in opened b = b

unfoldable pub record_success : CircuitBreaker → CircuitBreaker
unfolding reset
record_success b = success_in b.state b

unfoldable pub set_cool_down_ns : CircuitBreaker → ℕ → CircuitBreaker
set_cool_down_ns b cool_down_ns = record b { cool_down_ns = cool_down_ns }

unfoldable pub set_half_open_params : CircuitBreaker → ℕ → ℕ → CircuitBreaker
set_half_open_params b max_probes successes_needed = record b {
  half_open_enabled = true;
  half_open_max_probes = if max_probes == 0 then 1 else max_probes;
  half_open_successes_needed = if successes_needed == 0 then 1 else successes_needed;
}

unfoldable pub set_max_consecutive_rejections : CircuitBreaker → ℕ → CircuitBreaker
set_max_consecutive_rejections b max_rejections = record b {
  max_consecutive_rejections = max_rejections;
}

unfoldable pub set_rate_limit : CircuitBreaker → ℕ → ℕ → CircuitBreaker
set_rate_limit b max_rate window_ns = record b {
  max_rate_per_window = max_rate;
  rate_window_ns = window_ns;
}

unfoldable pub set_max_loss_limit : CircuitBreaker → ℤ → CircuitBreaker
set_max_loss_limit b loss_limit = record b { max_loss_limit = loss_limit }

unfoldable pub check_loss_limit : CircuitBreaker → ℤ → ℕ → CircuitBreaker × Bool
unfolding trip
check_loss_limit b current_loss timestamp_ns =
    if ltb_ℤ (pos 0) b.max_loss_limit && leb_ℤ b.max_loss_limit current_loss
    then (trip b timestamp_ns, false)
    else (b, true)

-- `allow` while closed: the rate window.
unfoldable pub allow_closed : CircuitBreaker → ℕ → CircuitBreaker × Bool
unfolding trip
allow_closed b now_ns =
    let count = (b.window_count + 1) % 2 ^ 32 in
    let counted = record b { window_count = count } in
    if ltb 0 b.max_rate_per_window && ltb 0 b.rate_window_ns && ltb 0 now_ns
    then if ltb now_ns b.window_start_ns || leb b.rate_window_ns (now_ns - b.window_start_ns)
      then (record b { window_start_ns = now_ns; window_count = 1 }, true)
      else if ltb b.max_rate_per_window count
      then (trip counted now_ns, false)
      else (counted, true)
    else (b, true)

-- `allow` while half open: a probe.
unfoldable pub allow_probe : CircuitBreaker → CircuitBreaker × Bool
allow_probe b = (
  record b { half_open_probes_issued = (b.half_open_probes_issued + 1) % 2 ^ 32 },
  ltb b.half_open_probes_issued b.half_open_max_probes,
)

-- `allow` while open: after the cool-down a probe, or the reset.
unfoldable pub allow_open : CircuitBreaker → ℕ → CircuitBreaker × Bool
unfolding allow_probe reset
allow_open b now_ns =
    let probing = record b {
      state = half_open;
      half_open_probes_issued = 0;
      half_open_successes = 0;
    } in
    if ltb 0 b.cool_down_ns
      && ltb 0 now_ns
      && leb b.trip_timestamp_ns now_ns
      && leb b.cool_down_ns (now_ns - b.trip_timestamp_ns)
    then if b.half_open_enabled then allow_probe probing else (reset b, true)
    else (b, false)

abbrev pub allow_in : State → CircuitBreaker → ℕ → CircuitBreaker × Bool
allow_in closed b now_ns = allow_closed b now_ns
allow_in opened b now_ns = allow_open b now_ns
allow_in half_open b now_ns = allow_probe b

unfoldable pub allow : CircuitBreaker → ℕ → CircuitBreaker × Bool
unfolding allow_closed allow_open allow_probe
allow b now_ns = allow_in b.state b now_ns
