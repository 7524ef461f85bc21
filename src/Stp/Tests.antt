-- ===== src/Stp/Tests.antt =====
-- Concrete trades, and the theorems of luv_stp.hpp at them.
use luv_flicker.Base.{◌≡◌, ◌+ℤ◌, ◌-ℤ◌, ◌*ℤ◌, pos, true, false, refl, List, [], ◌∷◌}
use luv_flicker.Stp.{MarketMakerProtection}
use luv_flicker.Stp.Window.{Trade, windows}

abbrev guard : MarketMakerProtection
guard = record {
  config = record {
    window_ns = 1_000;
    max_traded_volume = pos 100;
    max_traded_notional = pos 10_000;
    max_delta_volume = pos 60;
  };
  tripped = false;
  trip_ts_ns = 0;
  window_start_ts_ns = 0;
  volume_in_window = pos 0;
  notional_in_window = pos 0;
  delta_in_window = pos 0;
}

-- 40 bought and 30 sold in one window, and 70 bought in the next: more than 60 net.
abbrev day : List Trade
day =
    record { ts_ns = 10; side = 0; qty = pos 40; price = pos 20 }
    ∷ record { ts_ns = 900; side = 1; qty = pos 30; price = pos 21 }
    ∷ record { ts_ns = 1_500; side = 0; qty = pos 70; price = pos 20 }
    ∷ []

over_limit : (windows guard.config 0 [] day).0 ≡ true
unfolding ◌+ℤ◌ ◌-ℤ◌ ◌*ℤ◌
over_limit = refl
