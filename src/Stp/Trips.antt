-- ===== src/Stp/Trips.antt =====
-- Market-maker protection over a sequence of trades: when it trips, and the latch.
use luv_flicker.Base.{ℕ, ◌≡◌, ℤ, Bool, true, false, if◌then◌else◌, arith, List, [], ◌∷◌, refl}
use luv_flicker.Stp.{MarketMakerProtection, breached, on_trade}
use luv_flicker.Stp.Window.{Trade}

-- What follows once a trade is counted.
abbrev after_count : MarketMakerProtection → ℕ → MarketMakerProtection × Bool
after_count r ts_ns =
    if breached r then (record r { tripped = true; trip_ts_ns = ts_ns }, false) else (r, true)

abbrev pub trades : MarketMakerProtection → List Trade → MarketMakerProtection
trades p [] = p
trades p (t ∷ ts) = trades (on_trade p t.ts_ns t.side t.qty t.price).0 ts

on_trade_tripped :
    (p : MarketMakerProtection) (ts side : ℕ) (qty price : ℤ)
    → p.tripped ≡ true
    → (on_trade p ts side qty price).0 ≡ p
unfolding on_trade
on_trade_tripped p ts side qty price h = ground arith

-- Once tripped, no sequence of trades changes anything: the protection stays tripped, with its trip
-- time.
pub trades_latched :
    (p : MarketMakerProtection) (ts : List Trade) → p.tripped ≡ true → trades p ts ≡ p
trades_latched p [] h = refl
trades_latched p (t ∷ ts) h =
    rw (on_trade_tripped p t.ts_ns t.side t.qty t.price h) (trades_latched p ts h)
