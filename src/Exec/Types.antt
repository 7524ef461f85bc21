-- ===== src/Exec/Types.antt =====
-- luv_execution.hpp, `exec`: limits, intents and decisions.
use luv_flicker.Base.{
  ℕ, ◌+◌, ◌-◌, ◌%◌, ◌^◌, ℤ, pos, negsuc, ◌-ℤ◌, leb_ℤ, pos_part, neg_part, Bool, false, ◌&&◌,
  if◌then◌else◌, ◌==◌, leb,
}
use luv_flicker.Numeric.{is_valid_price, is_valid_quantity, max_price, min_price}

abbrev pub buy : ℕ
buy = 0

abbrev pub sell : ℕ
sell = 1

-- The bits of `Reject`.
abbrev pub reject_qty : ℕ
reject_qty = 1

abbrev pub reject_position : ℕ
reject_position = 2

abbrev pub reject_stale_alpha : ℕ
reject_stale_alpha = 4

abbrev pub reject_halted : ℕ
reject_halted = 8

abbrev pub reject_flat_signal : ℕ
reject_flat_signal = 16

abbrev pub reject_order_capacity : ℕ
reject_order_capacity = 32

abbrev pub reject_invalid_symbol : ℕ
reject_invalid_symbol = 64

abbrev pub reject_price : ℕ
reject_price = 128

pub record RiskLimits : Type 0 where
  pub max_order_qty : ℤ
  pub max_abs_position : ℤ
  pub max_alpha_age_ns : ℕ
  pub lowest_price : ℤ
  pub highest_price : ℤ
  pub reference_price : ℤ
  pub max_price_collar_pct : ℤ
  pub max_gross_loss : ℤ
  pub max_consecutive_rejections : ℕ

-- `RiskLimits{}`
abbrev pub default_limits : RiskLimits
default_limits = record {
  max_order_qty = pos 1_000;
  max_abs_position = pos 100_000;
  max_alpha_age_ns = 250_000;
  lowest_price = min_price;
  highest_price = max_price;
  reference_price = pos 0;
  max_price_collar_pct = pos 10;
  max_gross_loss = pos 0;
  max_consecutive_rejections = 5;
}

unfoldable pub is_valid : RiskLimits → Bool
is_valid l =
    is_valid_quantity l.max_order_qty
    && leb_ℤ (pos 0) l.max_abs_position
    && is_valid_price l.lowest_price
    && leb_ℤ l.lowest_price l.highest_price
    && leb_ℤ l.highest_price max_price
    && leb_ℤ (pos 0) l.reference_price
    && leb_ℤ (pos 0) l.max_price_collar_pct
    && leb_ℤ l.max_price_collar_pct (pos 100)
    && leb_ℤ (pos 0) l.max_gross_loss

pub record OrderIntent : Type 0 where
  pub symbol_idx : ℕ
  pub side : ℕ
  pub qty : ℤ
  pub price : ℤ
  pub alpha_timestamp_ns : ℕ
  pub now_ns : ℕ
  pub client_order_id : ℕ
  pub time_in_force : ℕ

pub record OrderReplaceIntent : Type 0 where
  pub symbol_idx : ℕ
  pub original_order_id : ℕ
  pub replacement_order_id : ℕ
  pub new_qty : ℤ
  pub new_price : ℤ
  pub alpha_timestamp_ns : ℕ
  pub now_ns : ℕ
  pub time_in_force : ℕ

pub record RiskDecision : Type 0 where
  pub pass : Bool
  pub reject_mask : ℕ

abbrev pub refused : ℕ → RiskDecision
refused mask = record { pass = false; reject_mask = mask }

-- `static_cast<uint64_t>` of an int64_t.
abbrev pub as_u64 : ℤ → ℕ
as_u64 (pos n) = n
as_u64 (negsuc n) = 2 ^ 64 - 1 - n

unfoldable pub clamp_u32 : ℤ → ℕ
clamp_u32 (pos n) = if leb n 0xFFFF_FFFF then n else 0xFFFF_FFFF
clamp_u32 (negsuc n) = 0

-- Buy is +qty, sell is -qty.
unfoldable pub signed_qty_delta : ℕ → ℤ → ℤ
signed_qty_delta side qty = if side % 2 == 0 then qty else pos 0 -ℤ qty

unfoldable pub abs_i64 : ℤ → ℕ
abs_i64 v = pos_part v + neg_part v
