-- ===== src/Exec/Risk/Limits.antt =====
-- What passes the pre-trade risk check of luv_execution.hpp, in terms of integers.
use luv_flicker.Base.{
  ◌+◌, ◌*◌, ◌^◌, ◌≤◌, ◌<◌, ◌≡◌, ◌↔◌, ◌⊎◌, ℤ, pos, pos_part, ◌≤ℤ◌, ◌+ℤ◌, ◌*ℤ◌, true, arith,
}
use luv_flicker.Arena.Orders.{RiskState}
use luv_flicker.Numeric.{is_valid_price, is_valid_quantity}
use luv_flicker.Exec.Types.{RiskLimits, OrderIntent, is_valid, signed_qty_delta, abs_i64}
use luv_flicker.Exec.Risk.{
  fits_i64, valid_qty, safe_qty, projected, valid_pos, valid_alpha, valid_price, collar_ok, loss_ok,
  valid_notional, passes, evaluate,
}

-- The price is within the collar, in percent of the reference price, if there is one.
abbrev pub InCollar : RiskLimits → ℤ → Type 0
InCollar l price =
    let reference = pos_part l.reference_price in
    let width = reference * pos_part l.max_price_collar_pct in
    (l.reference_price ≤ℤ pos 0)
    ⊎ (l.max_price_collar_pct ≤ℤ pos 0)
    ⊎ ((100 * pos_part price ≤ 100 * reference + width)
        × (100 * reference ≤ 100 * pos_part price + width))

-- What the limits and the state of the symbol allow.
pub record Admissible (l : RiskLimits) (risk : RiskState) (intent : OrderIntent) : Type 0 where
  pub some_qty : pos 1 ≤ℤ intent.qty
  pub qty_limit : intent.qty ≤ℤ l.max_order_qty
  pub position_fits : fits_i64 (risk.net_position +ℤ signed_qty_delta intent.side intent.qty) ≡ true
  pub position_limit :
      abs_i64 (risk.net_position +ℤ signed_qty_delta intent.side intent.qty)
      ≤ pos_part l.max_abs_position
  pub fresh : intent.now_ns ≤ intent.alpha_timestamp_ns + l.max_alpha_age_ns
  pub ordered : intent.alpha_timestamp_ns ≤ intent.now_ns
  pub open_for_trading : risk.halted ≡ 0
  pub above : l.lowest_price ≤ℤ intent.price
  pub below : intent.price ≤ℤ l.highest_price
  pub collar : InCollar l intent.price
  pub loss : (l.max_gross_loss ≤ℤ pos 0) ⊎ (risk.current_drawdown ≤ℤ l.max_gross_loss)
  pub notional_fits : fits_i64 (intent.price *ℤ intent.qty) ≡ true
  pub exposure_fits : fits_i64 (risk.gross_exposure +ℤ intent.price *ℤ intent.qty) ≡ true
  pub exposure : pos 0 ≤ℤ risk.gross_exposure

-- What `is_valid` says of the limits, as far as the check needs it.
pub record Sane (l : RiskLimits) : Type 0 where
  pub position : pos 0 ≤ℤ l.max_abs_position
  pub lowest : pos 1 ≤ℤ l.lowest_price
  pub highest : l.lowest_price ≤ℤ l.highest_price
  pub representable : l.highest_price ≤ℤ pos 0xFFFF_FFFF

pub is_valid-Sane : (l : RiskLimits) → is_valid l ≡ true → Sane l
unfolding is_valid is_valid_price is_valid_quantity
is_valid-Sane l v = record {
  position = ground arith;
  lowest = ground arith;
  highest = ground arith;
  representable = ground arith;
}

module _ (l : RiskLimits) (risk : RiskState) (intent : OrderIntent) where
  valid_qty_iff :
      (valid_qty l risk intent ≡ true) ↔ ((pos 1 ≤ℤ intent.qty) × (intent.qty ≤ℤ l.max_order_qty))
  unfolding valid_qty
  valid_qty_iff = (λ h. (ground arith, ground arith), λ h. ground arith)

  safe_qty-valid : valid_qty l risk intent ≡ true → safe_qty l risk intent ≡ intent.qty
  unfolding safe_qty
  safe_qty-valid h = ground arith

  valid_price_iff :
      Sane l
      → (valid_price l risk intent ≡ true)
        ↔ ((l.lowest_price ≤ℤ intent.price) × (intent.price ≤ℤ l.highest_price))
  unfolding valid_price
  valid_price_iff s =
      let a = s.lowest in
      let b = s.highest in
      let c = s.representable in (λ h. (ground arith, ground arith), λ h. ground arith)

  collar_ok_iff :
      Sane l
      → pos_part l.reference_price * pos_part l.max_price_collar_pct < 2 ^ 64
      → pos 1 ≤ℤ intent.price
      → (collar_ok l risk intent ≡ true) ↔ InCollar l intent.price
  unfolding collar_ok
  collar_ok_iff s f p = (λ h. ground arith, λ h. ground arith)

  valid_pos_iff :
      Sane l
      → valid_qty l risk intent ≡ true
      → let after = risk.net_position +ℤ signed_qty_delta intent.side intent.qty in
        (valid_pos l risk intent ≡ true)
        ↔ ((fits_i64 after ≡ true) × (abs_i64 after ≤ pos_part l.max_abs_position))
  unfolding valid_pos projected
  valid_pos_iff s q =
      let p = s.position in
      rw (safe_qty-valid q) (λ h. (ground arith, ground arith), λ h. ground arith)

  valid_alpha_iff : (valid_alpha l risk intent ≡ true) ↔ (
      (intent.now_ns ≤ intent.alpha_timestamp_ns + l.max_alpha_age_ns)
      × (intent.alpha_timestamp_ns ≤ intent.now_ns))
  unfolding valid_alpha
  valid_alpha_iff = (λ h. (ground arith, ground arith), λ h. ground arith)

  loss_ok_iff :
      (loss_ok l risk intent ≡ true)
      ↔ ((l.max_gross_loss ≤ℤ pos 0) ⊎ (risk.current_drawdown ≤ℤ l.max_gross_loss))
  unfolding loss_ok
  loss_ok_iff = (λ h. ground arith, λ h. ground arith)

  valid_notional_iff :
      valid_qty l risk intent ≡ true
      → valid_price l risk intent ≡ true
      → collar_ok l risk intent ≡ true
      → (valid_notional l risk intent ≡ true) ↔ (
          (fits_i64 (intent.price *ℤ intent.qty) ≡ true)
          × (fits_i64 (risk.gross_exposure +ℤ intent.price *ℤ intent.qty) ≡ true)
          × (pos 0 ≤ℤ risk.gross_exposure))
  unfolding valid_notional
  valid_notional_iff q v c =
      rw (safe_qty-valid q) (λ h. (ground arith, ground arith, ground arith), λ h. ground arith)

  passes_iff : (passes l risk intent ≡ true) ↔ (
      (valid_qty l risk intent ≡ true)
      × (valid_pos l risk intent ≡ true)
      × (valid_alpha l risk intent ≡ true)
      × (risk.halted ≡ 0)
      × (valid_price l risk intent ≡ true)
      × (collar_ok l risk intent ≡ true)
      × (valid_notional l risk intent ≡ true)
      × (loss_ok l risk intent ≡ true))
  unfolding passes
  passes_iff = (
    λ h. (
      ground arith,
      ground arith,
      ground arith,
      ground arith,
      ground arith,
      ground arith,
      ground arith,
      ground arith,
    ),
    λ h. ground arith,
  )

  passes-Admissible :
      Sane l
      → pos_part l.reference_price * pos_part l.max_price_collar_pct < 2 ^ 64
      → passes l risk intent ≡ true
      → Admissible l risk intent
  passes-Admissible s f h =
      let (q, p, a, o, v, c, n, d) = passes_iff.0 h in
      let (some_qty, qty_limit) = valid_qty_iff.0 q in
      let (fits, within) = (valid_pos_iff s q).0 p in
      let (fresh, ordered) = valid_alpha_iff.0 a in
      let (above, below) = (valid_price_iff s).0 v in
      let (notional, sum, exposure) = (valid_notional_iff q v c).0 n in
      let lowest = s.lowest in
      record {
        some_qty = some_qty;
        qty_limit = qty_limit;
        position_fits = fits;
        position_limit = within;
        fresh = fresh;
        ordered = ordered;
        open_for_trading = o;
        above = above;
        below = below;
        collar = (collar_ok_iff s f (omega arith)).0 c;
        loss = loss_ok_iff.0 d;
        notional_fits = notional;
        exposure_fits = sum;
        exposure = exposure;
      }

  Admissible-passes :
      Sane l
      → pos_part l.reference_price * pos_part l.max_price_collar_pct < 2 ^ 64
      → Admissible l risk intent
      → passes l risk intent ≡ true
  Admissible-passes s f a =
      let lowest = s.lowest in
      let above = a.above in
      let q = valid_qty_iff.1 (a.some_qty, a.qty_limit) in
      let v = (valid_price_iff s).1 (above, a.below) in
      let c = (collar_ok_iff s f (omega arith)).1 a.collar in
      passes_iff.1 (
        q,
        (valid_pos_iff s q).1 (a.position_fits, a.position_limit),
        valid_alpha_iff.1 (a.fresh, a.ordered),
        a.open_for_trading,
        v,
        c,
        (valid_notional_iff q v c).1 (a.notional_fits, a.exposure_fits, a.exposure),
        loss_ok_iff.1 a.loss,
      )

-- Under valid limits whose collar fits 64 bits, an order passes exactly if it is admissible.
pub evaluate_iff :
    (l : RiskLimits) (risk : RiskState) (intent : OrderIntent)
    → is_valid l ≡ true
    → pos_part l.reference_price * pos_part l.max_price_collar_pct < 2 ^ 64
    → ((evaluate l risk intent).pass ≡ true) ↔ Admissible l risk intent
unfolding evaluate
evaluate_iff l risk intent v f =
    let s = is_valid-Sane l v in
    (passes-Admissible l risk intent s f, Admissible-passes l risk intent s f)
