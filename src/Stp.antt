-- ===== src/Stp.antt =====
-- luv_stp.hpp: self-trade prevention and market-maker protection. Quantities and prices are
-- int64_t values, as integers, and the window sums wrap to 64 bits; `window_start + window_ns` is a uint64_t sum. The side code
-- for buy, `exec::kBuy` of luv_execution.hpp, is 0.
mod Tests
pub mod Resolution
pub mod Window
pub mod Trips
use luv_flicker.Base.{
  ℕ, ◌+◌, ◌%◌, ◌-◌, ◌^◌, ℤ, pos, negsuc, ◌+ℤ◌, ◌-ℤ◌, ◌*ℤ◌, ltb_ℤ, eqb_ℤ, Bool, true, false, not,
  ◌||◌, if◌then◌else◌, ◌==◌, ltb,
}

pub data StpMode : Type 0 where
  none cancel_newest cancel_oldest cancel_both decrement_and_cancel : StpMode

pub record StpResolution : Type 0 where
  pub self_trade_detected : Bool
  pub cancel_incoming : Bool
  pub cancel_resting : Bool
  pub adjusted_incoming_qty : ℤ
  pub adjusted_resting_qty : ℤ

-- The switch over the modes, once a self-trade is detected.
unfoldable pub resolve : StpMode → ℤ → ℤ → StpResolution
resolve StpMode.none incoming resting = record {
  self_trade_detected = true;
  cancel_incoming = false;
  cancel_resting = false;
  adjusted_incoming_qty = pos 0;
  adjusted_resting_qty = pos 0;
}
resolve StpMode.cancel_newest incoming resting = record {
  self_trade_detected = true;
  cancel_incoming = true;
  cancel_resting = false;
  adjusted_incoming_qty = pos 0;
  adjusted_resting_qty = resting;
}
resolve StpMode.cancel_oldest incoming resting = record {
  self_trade_detected = true;
  cancel_incoming = false;
  cancel_resting = true;
  adjusted_incoming_qty = incoming;
  adjusted_resting_qty = pos 0;
}
resolve StpMode.cancel_both incoming resting = record {
  self_trade_detected = true;
  cancel_incoming = true;
  cancel_resting = true;
  adjusted_incoming_qty = pos 0;
  adjusted_resting_qty = pos 0;
}
resolve StpMode.decrement_and_cancel incoming resting =
    if eqb_ℤ incoming resting
    then record {
      self_trade_detected = true;
      cancel_incoming = true;
      cancel_resting = true;
      adjusted_incoming_qty = pos 0;
      adjusted_resting_qty = pos 0;
    }
    else if ltb_ℤ resting incoming
    then record {
      self_trade_detected = true;
      cancel_incoming = false;
      cancel_resting = true;
      adjusted_incoming_qty = incoming -ℤ resting;
      adjusted_resting_qty = pos 0;
    }
    else record {
      self_trade_detected = true;
      cancel_incoming = true;
      cancel_resting = false;
      adjusted_incoming_qty = pos 0;
      adjusted_resting_qty = resting -ℤ incoming;
    }

abbrev pub is_none : StpMode → Bool
is_none StpMode.none = true
is_none _ = false

unfoldable pub evaluate : ℕ → ℕ → StpMode → ℤ → ℤ → StpResolution
evaluate incoming_firm resting_firm mode incoming resting =
    if incoming_firm == 0
      || resting_firm == 0
      || not (incoming_firm == resting_firm)
      || is_none mode
    then record {
      self_trade_detected = false;
      cancel_incoming = false;
      cancel_resting = false;
      adjusted_incoming_qty = incoming;
      adjusted_resting_qty = resting;
    }
    else resolve mode incoming resting

pub record MmpConfig : Type 0 where
  pub window_ns : ℕ
  pub max_traded_volume : ℤ
  pub max_traded_notional : ℤ
  pub max_delta_volume : ℤ

pub record MarketMakerProtection : Type 0 where
  pub config : MmpConfig
  pub tripped : Bool
  pub trip_ts_ns : ℕ
  pub window_start_ts_ns : ℕ
  pub volume_in_window : ℤ
  pub notional_in_window : ℤ
  pub delta_in_window : ℤ

abbrev pub buy : ℕ
buy = 0

-- The window that a trade at `ts_ns` falls into.
unfoldable pub slide : MarketMakerProtection → ℕ → MarketMakerProtection
slide p ts_ns =
    if ltb ((p.window_start_ts_ns + p.config.window_ns) % 2 ^ 64) ts_ns
    then record p {
      window_start_ts_ns = ts_ns;
      volume_in_window = pos 0;
      notional_in_window = pos 0;
      delta_in_window = pos 0;
    }
    else p

-- A value of `int64_t`, wrapped to 64 bits.
unfoldable pub wrap_i64 : ℤ → ℤ
wrap_i64 (pos n) = let r = n % 2 ^ 64 in if ltb r (2 ^ 63) then pos r else negsuc (2 ^ 64 - 1 - r)
wrap_i64 (negsuc n) =
    let r = n % 2 ^ 64 in if ltb r (2 ^ 63) then negsuc r else pos (2 ^ 64 - 1 - r)

unfoldable pub count_trade : MarketMakerProtection → ℕ → ℤ → ℤ → MarketMakerProtection
count_trade p side qty price = record p {
  volume_in_window = wrap_i64 (p.volume_in_window +ℤ qty);
  notional_in_window = wrap_i64 (p.notional_in_window +ℤ wrap_i64 (qty *ℤ price));
  delta_in_window =
      wrap_i64 (if side == buy then p.delta_in_window +ℤ qty else p.delta_in_window -ℤ qty);
}

abbrev pub abs : ℤ → ℤ
abs a = if ltb_ℤ a (pos 0) then wrap_i64 (pos 0 -ℤ a) else a

unfoldable pub breached : MarketMakerProtection → Bool
breached p =
    ltb_ℤ p.config.max_traded_volume p.volume_in_window
    || ltb_ℤ p.config.max_traded_notional p.notional_in_window
    || ltb_ℤ p.config.max_delta_volume (abs p.delta_in_window)

unfoldable pub on_trade : MarketMakerProtection → ℕ → ℕ → ℤ → ℤ → MarketMakerProtection × Bool
on_trade p ts_ns side qty price =
    let q = count_trade (slide p ts_ns) side qty price in
    if p.tripped
    then (p, false)
    else if breached q
    then (record q { tripped = true; trip_ts_ns = ts_ns }, false)
    else (q, true)

unfoldable pub reset : MarketMakerProtection → MarketMakerProtection
reset p = record p {
  tripped = false;
  trip_ts_ns = 0;
  volume_in_window = pos 0;
  notional_in_window = pos 0;
  delta_in_window = pos 0;
  window_start_ts_ns = 0;
}
