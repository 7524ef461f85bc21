-- ===== src/Luld.antt =====
-- luv_luld.hpp, `LuldEngine`: the price bands of limit up and limit down, and the trading pause. All
-- fields are uint64_t: the products and sums wrap.
pub mod Bands
pub mod Quotes
pub mod Told
pub mod Pause
mod Tests
use luv_flicker.Base.{
  ℕ, ◌+◌, ◌-◌, ◌*◌, ◌/◌, ◌%◌, ◌^◌, Bool, true, false, not, ◌&&◌, ◌||◌, if◌then◌else◌, ◌==◌, ltb,
  leb,
}

pub data LuldTier : Type 0 where
  tier1 tier2 : LuldTier

pub data LuldState : Type 0 where
  normal straddle limit_state trading_pause : LuldState

pub record LuldConfig : Type 0 where
  pub tier : LuldTier
  pub straddle_timeout_ns : ℕ
  pub is_market_open_or_close_period : Bool

pub record LuldBands : Type 0 where
  pub reference_price : ℕ
  pub lower_band : ℕ
  pub upper_band : ℕ
  pub state : LuldState
  pub straddle_start_ns : ℕ
  pub pause_triggered : Bool

abbrev pub initial_bands : LuldBands
initial_bands = record {
  reference_price = 0;
  lower_band = 0;
  upper_band = 0;
  state = LuldState.normal;
  straddle_start_ns = 0;
  pause_triggered = false;
}

-- The hundredths of a percent of the tier and the price.
unfoldable pub tier_bp : LuldTier → ℕ → ℕ
tier_bp LuldTier.tier1 p = if ltb 30_000 p then 500 else if leb 7_500 p then 2_000 else 7_500
tier_bp LuldTier.tier2 p = if ltb 30_000 p then 1_000 else if leb 7_500 p then 2_000 else 7_500

-- `delta`, the width of the bands on either side.
unfoldable pub band_delta : LuldConfig → ℕ → ℕ
band_delta config p =
    let bp =
      if config.is_market_open_or_close_period
      then tier_bp config.tier p * 2
      else tier_bp config.tier p in
    let delta = p * bp % 2 ^ 64 / 10_000 in if leb p 7_500 && ltb 1_500 delta then 1_500 else delta

unfoldable pub recalculate_bands : LuldConfig → LuldBands → LuldBands
recalculate_bands config b =
    let p = b.reference_price in
    let delta = band_delta config p in
    if p == 0 then record b { lower_band = 0; upper_band = 0 } else record b {
      lower_band = if ltb delta p then p - delta else 0;
      upper_band = (p + delta) % 2 ^ 64;
    }

unfoldable pub set_reference_price : LuldConfig → LuldBands → ℕ → LuldBands
set_reference_price config b ref_price =
    recalculate_bands config (record b { reference_price = ref_price })

unfoldable pub enter : LuldBands → LuldState → ℕ → LuldBands
enter b state now_ns = record b { state = state; straddle_start_ns = now_ns }

unfoldable pub pause : LuldBands → LuldBands
pause b = record b { state = LuldState.trading_pause; pause_triggered = true }

-- `bid_at_upper || ask_at_lower`
unfoldable pub at_limit : LuldBands → ℕ → ℕ → Bool
at_limit b best_bid best_ask =
    leb b.upper_band best_bid || (leb best_ask b.lower_band && ltb 0 best_ask)

-- The best prices are apart from both bands.
unfoldable pub within_bands : LuldBands → ℕ → ℕ → Bool
within_bands b best_bid best_ask = ltb b.lower_band best_bid && ltb best_ask b.upper_band

unfoldable pub timed_out : LuldConfig → LuldBands → ℕ → Bool
timed_out config b now_ns = leb ((b.straddle_start_ns + config.straddle_timeout_ns) % 2 ^ 64) now_ns

-- The branch of a quote at a band.
unfoldable pub on_limit : LuldConfig → LuldBands → LuldState → ℕ → LuldBands
on_limit config b LuldState.limit_state now_ns = if timed_out config b now_ns then pause b else b
on_limit config b LuldState.straddle now_ns = if timed_out config b now_ns then pause b else b
on_limit config b _ now_ns = enter b LuldState.limit_state now_ns

-- The branch of a quote that is beyond one band on one side only.
unfoldable pub on_straddle : LuldConfig → LuldBands → LuldState → ℕ → LuldBands
on_straddle config b LuldState.normal now_ns = enter b LuldState.straddle now_ns
on_straddle config b LuldState.straddle now_ns = if timed_out config b now_ns then pause b else b
on_straddle config b _ now_ns = b

abbrev pub is_paused : LuldState → Bool
is_paused LuldState.trading_pause = true
is_paused _ = false

unfoldable pub update_nbbo : LuldConfig → LuldBands → ℕ → ℕ → ℕ → LuldBands
update_nbbo config b best_bid best_ask now_ns =
    if b.reference_price == 0
    then b
    else if is_paused b.state
    then b
    else if at_limit b best_bid best_ask
    then on_limit config b b.state now_ns
    else if within_bands b best_bid best_ask
    then enter b LuldState.normal 0
    else on_straddle config b b.state now_ns

unfoldable pub is_trade_allowed : LuldBands → ℕ → Bool
is_trade_allowed b trade_price =
    if is_paused b.state
    then false
    else if b.reference_price == 0
    then true
    else leb b.lower_band trade_price && leb trade_price b.upper_band

unfoldable pub resume_trading : LuldConfig → LuldBands → ℕ → LuldBands
resume_trading config b new_ref_price =
    set_reference_price config
      (record b { state = LuldState.normal; pause_triggered = false; straddle_start_ns = 0 })
      new_ref_price
