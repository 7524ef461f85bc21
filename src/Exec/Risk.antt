-- ===== src/Exec/Risk.antt =====
-- luv_execution.hpp, `PreTradeRisk::evaluate`. The bits of the source are Booleans; what
-- `__builtin_add_overflow` and `__builtin_mul_overflow` report is the range of int64_t.
pub mod Limits
use luv_flicker.Base.{
  ℕ, ◌+◌, ◌-◌, ◌*◌, ◌/◌, ◌%◌, ◌^◌, ℤ, pos, ◌+ℤ◌, ◌*ℤ◌, leb_ℤ, ltb_ℤ, int64_max, int64_min, Bool,
  true, false, not, ◌&&◌, ◌||◌, if◌then◌else◌, ◌==◌, leb,
}
use luv_flicker.Arena.Orders.{RiskState}
use luv_flicker.Exec.Types.{
  RiskLimits, OrderIntent, RiskDecision, as_u64, signed_qty_delta, abs_i64, reject_qty,
  reject_position, reject_stale_alpha, reject_halted, reject_price,
}

abbrev pub fits_i64 : ℤ → Bool
fits_i64 v = leb_ℤ int64_min v && leb_ℤ v int64_max

module _ (limits : RiskLimits) (risk : RiskState) (intent : OrderIntent) where
  unfoldable pub valid_qty : Bool
  valid_qty = ltb_ℤ (pos 0) intent.qty && leb_ℤ intent.qty limits.max_order_qty

  unfoldable pub safe_qty : ℤ
  unfolding valid_qty
  safe_qty = if valid_qty then intent.qty else pos 0

  unfoldable pub projected : ℤ
  unfolding safe_qty
  projected = risk.net_position +ℤ signed_qty_delta intent.side safe_qty

  unfoldable pub valid_pos : Bool
  unfolding projected
  valid_pos =
      fits_i64 projected
      && leb_ℤ (pos 0) limits.max_abs_position
      && leb (abs_i64 projected) (as_u64 limits.max_abs_position)

  unfoldable pub valid_alpha : Bool
  valid_alpha =
      leb intent.alpha_timestamp_ns intent.now_ns
      && leb (intent.now_ns - intent.alpha_timestamp_ns) limits.max_alpha_age_ns

  unfoldable pub valid_price : Bool
  valid_price =
      leb_ℤ (if ltb_ℤ (pos 0) limits.lowest_price then limits.lowest_price else pos 1) intent.price
      && leb (as_u64 intent.price)
          (if ltb_ℤ (pos 0) limits.highest_price then as_u64 limits.highest_price else 0xFFFF_FFFF)
      && leb (as_u64 intent.price) 0xFFFF_FFFF

  unfoldable pub collar_ok : Bool
  collar_ok =
      let price = as_u64 intent.price in
      let reference = as_u64 limits.reference_price in
      let diff = if leb reference price then price - reference else reference - price in
      let allowed = ((reference * as_u64 limits.max_price_collar_pct) % 2 ^ 64) / 100 in
      if ltb_ℤ (pos 0) limits.reference_price && ltb_ℤ (pos 0) limits.max_price_collar_pct
      then leb diff allowed
      else true

  unfoldable pub loss_ok : Bool
  loss_ok = leb_ℤ limits.max_gross_loss (pos 0) || leb_ℤ risk.current_drawdown limits.max_gross_loss

  unfoldable pub valid_notional : Bool
  unfolding safe_qty valid_price collar_ok
  valid_notional =
      let order_notional = intent.price *ℤ safe_qty in
      valid_price
      && collar_ok
      && fits_i64 order_notional
      && fits_i64 (risk.gross_exposure +ℤ order_notional)
      && leb_ℤ (pos 0) risk.gross_exposure

  unfoldable pub passes : Bool
  unfolding valid_qty valid_pos valid_alpha valid_price collar_ok valid_notional loss_ok
  passes =
      valid_qty
      && valid_pos
      && valid_alpha
      && (risk.halted == 0)
      && (valid_price && collar_ok)
      && valid_notional
      && loss_ok

  -- The bits stand apart, so their sum is their union.
  unfoldable pub reject_bits : ℕ
  unfolding valid_qty valid_pos valid_alpha valid_price collar_ok valid_notional loss_ok
  reject_bits =
      (if valid_qty then 0 else reject_qty)
      + (if valid_pos then 0 else reject_position)
      + (if valid_alpha then 0 else reject_stale_alpha)
      + (if (risk.halted == 0) && loss_ok then 0 else reject_halted)
      + (if (valid_price && collar_ok) && valid_notional then 0 else reject_price)

  -- `evaluate` behind its test of the symbol.
  unfoldable pub evaluate : RiskDecision
  unfolding passes reject_bits
  evaluate = record { pass = passes; reject_mask = if passes then 0 else reject_bits }
