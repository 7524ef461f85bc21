-- ===== src/Luld/Bands.antt =====
-- The price bands of luv_luld.hpp.
use luv_flicker.Base.{ℕ, ◌+◌, ◌*◌, ◌^◌, ◌<◌, ◌≤◌, ◌≡◌, ◌↔◌, refl, Bool, true, arith}
use luv_flicker.Luld.{
  LuldBands, LuldConfig, tier_bp, band_delta, recalculate_bands, set_reference_price,
  is_trade_allowed, resume_trading,
}

module _ (open_period : Bool) (config : LuldConfig)
    (period : config.is_market_open_or_close_period ≡ open_period) (p : ℕ)
    (small : p < 2 ^ 49) where
  delta-widest : 2 * band_delta config p ≤ 3 * p
  unfolding band_delta tier_bp
  delta-widest = ground arith

  delta-fifth : 30_000 < p → 5 * band_delta config p ≤ p
  unfolding band_delta tier_bp
  delta-fifth h = ground arith

module _ (b : LuldBands) (config : LuldConfig) (ref price : ℕ) (some : 0 < ref)
    (wide : 2 * band_delta config ref ≤ 3 * ref) (small : ref < 2 ^ 49) where
  allowed→within :
      is_trade_allowed (resume_trading config b ref) price ≡ true
      → (ref ≤ price + band_delta config ref) × (price ≤ ref + band_delta config ref)
  unfolding resume_trading set_reference_price recalculate_bands is_trade_allowed
  allowed→within h = ground (arith, h)

  within→allowed :
      (ref ≤ price + band_delta config ref) × (price ≤ ref + band_delta config ref)
      → is_trade_allowed (resume_trading config b ref) price ≡ true
  unfolding resume_trading set_reference_price recalculate_bands is_trade_allowed
  within→allowed h = ground (arith, h)

-- After trading resumes at a positive reference price below 2 ^ 49, a price may trade just when it is within the
-- distance of the tier of that reference; the distance is no more than 1.5 times the reference and,
-- above 3 dollars, no more than a fifth of it.
pub resume_trading-allows :
    (config : LuldConfig) (b : LuldBands) (ref price : ℕ)
    → 0 < ref
    → ref < 2 ^ 49
    → ((is_trade_allowed (resume_trading config b ref) price ≡ true)
        ↔ ((ref ≤ price + band_delta config ref) × (price ≤ ref + band_delta config ref)))
      × (2 * band_delta config ref ≤ 3 * ref)
      × (30_000 < ref → 5 * band_delta config ref ≤ ref)
resume_trading-allows config b ref price some small =
    let wide = delta-widest _ config refl ref small in
    (
      (
        allowed→within b config ref price some wide small,
        within→allowed b config ref price some wide small,
      ),
      wide,
      delta-fifth _ config refl ref small,
    )
