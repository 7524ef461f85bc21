-- ===== src/Luld/Tests.antt =====
-- Runs of luv_luld.hpp.
use luv_flicker.Base.{◌+◌, ◌*◌, ◌<◌, ◌≤◌, ◌≡◌, ◌↔◌, refl, true, false, List, [], ◌∷◌, arith}
use luv_flicker.Luld.{
  LuldBands, LuldConfig, LuldTier, initial_bands, tier_bp, band_delta, recalculate_bands,
  set_reference_price, enter, pause, at_limit, timed_out, on_limit, is_paused, update_nbbo,
  is_trade_allowed, resume_trading,
}
use luv_flicker.Luld.Bands.{resume_trading-allows}
use luv_flicker.Luld.Pause.{update_all, update_all-Expired}
use luv_flicker.Luld.Quotes.{Quote, seen, Expired}

-- 15 seconds, in the middle of the day.
abbrev config : LuldConfig
config = record {
  tier = LuldTier.tier1;
  straddle_timeout_ns = 15_000_000_000;
  is_market_open_or_close_period = false;
}

-- A reference of 100 dollars: the bands are 95 and 105.
abbrev bands : LuldBands
bands = record initial_bands {
  reference_price = 1_000_000;
  lower_band = 950_000;
  upper_band = 1_050_000;
}

from_reference : set_reference_price config initial_bands 1_000_000 ≡ bands
unfolding set_reference_price recalculate_bands band_delta tier_bp
from_reference = refl

resume_trading-allows_example :
    ((is_trade_allowed (resume_trading config bands 1_000_000) 1_040_000 ≡ true) ↔ (
      (1_000_000 ≤ 1_040_000 + band_delta config 1_000_000)
      × (1_040_000 ≤ 1_000_000 + band_delta config 1_000_000)))
    × (2 * band_delta config 1_000_000 ≤ 3 * 1_000_000)
    × (30_000 < 1_000_000 → 5 * band_delta config 1_000_000 ≤ 1_000_000)
resume_trading-allows_example =
    resume_trading-allows config bands 1_000_000 1_040_000 (omega arith) (omega arith)

-- The bid is at the upper band, and is there 15 seconds later.
abbrev quotes : List Quote
quotes =
    record { best_bid = 1_050_000; best_ask = 1_060_000; now_ns = 10 }
    ∷ record { best_bid = 1_051_000; best_ask = 1_060_000; now_ns = 15_000_000_010 }
    ∷ []

paused_then : is_paused (update_all config bands quotes).state ≡ true
unfolding update_all update_nbbo at_limit on_limit timed_out enter pause
paused_then = refl

update_all-Expired_example : Expired 950_000 1_050_000 15_000_000_000 (seen quotes [])
update_all-Expired_example =
    update_all-Expired config bands quotes (omega arith) refl (omega arith, (omega arith, tt))
      paused_then
