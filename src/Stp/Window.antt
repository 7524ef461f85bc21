-- ===== src/Stp/Window.antt =====
-- Market-maker protection: the windows of the trades and their sums, and that `count_trade` and the test
-- of the limits follow them.
use luv_flicker.Base.{
  ℕ, zero, suc, ◌+◌, ◌^◌, ◌<◌, ◌≡◌, ℤ, pos, negsuc, ◌+ℤ◌, ◌-ℤ◌, ◌*ℤ◌, ltb_ℤ, pos_part, neg_part,
  -ℤ_parts, Bool, true, false, ◌||◌, if◌then◌else◌, ◌==◌, ltb, inl, inr, arith, List, [], ◌∷◌, refl,
  ap, ◌∙◌, Bool-cases,
}
use luv_flicker.Stp.{MmpConfig, MarketMakerProtection, buy, wrap_i64, count_trade, abs, breached}

pub record Trade : Type 0 where
  pub ts_ns : ℕ
  pub side : ℕ
  pub qty : ℤ
  pub price : ℤ

-- The sums over the trades of a window, the last one first.
abbrev pub volume_of : List Trade → ℤ
volume_of [] = pos 0
volume_of (t ∷ w) = volume_of w +ℤ t.qty

abbrev pub notional_of : List Trade → ℤ
notional_of [] = pos 0
notional_of (t ∷ w) = notional_of w +ℤ t.qty *ℤ t.price

-- Bought less sold.
abbrev pub delta_of : List Trade → ℤ
delta_of [] = pos 0
delta_of (t ∷ w) = if t.side == buy then delta_of w +ℤ t.qty else delta_of w -ℤ t.qty

-- The start and the trades of the window that a trade falls into: it opens a new one when it is
-- later than the window is long.
abbrev pub window_at : MmpConfig → (start : ℕ) → List Trade → Trade → ℕ × List Trade
window_at config start w t =
    if ltb (start + config.window_ns) t.ts_ns then (t.ts_ns, t ∷ []) else (start, t ∷ w)

-- A sum is over its limit; the net volume counts in either direction.
abbrev pub exceeds : MmpConfig → List Trade → Bool
exceeds config w =
    ltb_ℤ config.max_traded_volume (volume_of w)
    || ltb_ℤ config.max_traded_notional (notional_of w)
    || (ltb_ℤ config.max_delta_volume (delta_of w)
        || ltb_ℤ config.max_delta_volume (pos 0 -ℤ delta_of w))

-- The windows of some trades, up to the first that exceeds a limit: whether there is one, and the
-- last window.
abbrev pub windows : MmpConfig → ℕ → List Trade → List Trade → Bool × (ℕ × List Trade)
windows config start w [] = (false, (start, w))
windows config start w (t ∷ ts) =
    let (start', w') = window_at config start w t in
    let rest = windows config start' w' ts in
    if exceeds config w' then (true, (start', w')) else rest

abbrev pub magnitude : ℤ → ℕ
magnitude (pos n) = n
magnitude (negsuc n) = n + 1

-- What the code computes for the window with that trade as the last fits its types.
abbrev pub FitsAt : MmpConfig → ℕ → List Trade → Trade → Type 0
FitsAt config start w t =
    let (start', w') = window_at config start w t in
    (start + config.window_ns < 2 ^ 64)
    × (magnitude (t.qty *ℤ t.price) < 2 ^ 63)
    × (magnitude (volume_of w') < 2 ^ 63)
    × (magnitude (notional_of w') < 2 ^ 63)
    × (magnitude (delta_of w') < 2 ^ 63)

abbrev pub Fits : MmpConfig → ℕ → List Trade → List Trade → Type 0
Fits config start w [] = Unit {0}
Fits config start w (t ∷ ts) =
    let (start', w') = window_at config start w t in
    FitsAt config start w t × Fits config start' w' ts

-- The sums that the protection holds are those of the window.
pub record Counts (p : MarketMakerProtection) (start : ℕ) (w : List Trade) : Type 0 where
  pub opened : p.window_start_ts_ns ≡ start
  pub traded : p.volume_in_window ≡ volume_of w
  pub worth : p.notional_in_window ≡ notional_of w
  pub net : p.delta_in_window ≡ delta_of w

pub wrap_i64-magnitude : (a : ℤ) → magnitude a < 2 ^ 63 → wrap_i64 a ≡ a
unfolding wrap_i64
wrap_i64-magnitude (pos n) h = ground arith
wrap_i64-magnitude (negsuc n) h = ground arith

magnitude-neg : (a : ℤ) → magnitude (pos 0 -ℤ a) ≡ magnitude a
unfolding ◌-ℤ◌ ◌+ℤ◌
magnitude-neg (pos zero) = refl
magnitude-neg (pos (suc n)) = ground arith
magnitude-neg (negsuc n) = ground arith

-- In the parts of the limit, of the number and of its opposite.
over_parts :
    (lp ln p n p' n' : ℕ)
    → p' + 0 + p ≡ n' + 0 + n
    → (if ltb (p + 0) (0 + n) then ltb (lp + n') (p' + ln) else ltb (lp + n) (p + ln))
      ≡ ltb (lp + n) (p + ln) || ltb (lp + n') (p' + ln)
over_parts lp ln p n p' n' h = ground arith

-- The net volume without its sign is over a limit just when it or its opposite is.
over-abs :
    (limit a : ℤ)
    → magnitude a < 2 ^ 63
    → ltb_ℤ limit (abs a) ≡ ltb_ℤ limit a || ltb_ℤ limit (pos 0 -ℤ a)
over-abs limit a small =
    let turned : wrap_i64 (pos 0 -ℤ a) ≡ pos 0 -ℤ a =
      wrap_i64-magnitude _ (omega (arith, magnitude-neg a)) in
    let known =
      over_parts (pos_part limit) (neg_part limit) (pos_part a) (neg_part a) (pos_part (pos 0 -ℤ a))
        (neg_part (pos 0 -ℤ a)) (omega (arith, -ℤ_parts (pos 0) a)) in
    elim (Bool-cases (ltb_ℤ a (pos 0))) [
      | inl low ↦ rw (low, turned) (rw low at known)
      | inr high ↦ rw high (rw high at known)
    ]

pub count_trade-Counts :
    (p : MarketMakerProtection) (start : ℕ) (w : List Trade) (t : Trade)
    → Counts p start w
    → magnitude (t.qty *ℤ t.price) < 2 ^ 63
    → magnitude (volume_of (t ∷ w)) < 2 ^ 63
    → magnitude (notional_of (t ∷ w)) < 2 ^ 63
    → magnitude (delta_of (t ∷ w)) < 2 ^ 63
    → Counts (count_trade p t.side t.qty t.price) start (t ∷ w)
unfolding count_trade
count_trade-Counts p start w t c product v n d = record {
  opened = c.opened;
  traded = ap (λ x. wrap_i64 (x +ℤ t.qty)) c.traded ∙ wrap_i64-magnitude _ v;
  worth =
      ap (λ x. wrap_i64 (x +ℤ wrap_i64 (t.qty *ℤ t.price))) c.worth
      ∙ ap (λ x. wrap_i64 (notional_of w +ℤ x)) (wrap_i64-magnitude _ product)
      ∙ wrap_i64-magnitude _ n;
  net =
      ap (λ x. wrap_i64 (if t.side == buy then x +ℤ t.qty else x -ℤ t.qty)) c.net
      ∙ wrap_i64-magnitude _ d;
}

pub breached-exceeds :
    (p : MarketMakerProtection) (start : ℕ) (w : List Trade)
    → Counts p start w
    → magnitude (delta_of w) < 2 ^ 63
    → breached p ≡ exceeds p.config w
unfolding breached
breached-exceeds p start w c d =
    ap
      (λ x.
        ltb_ℤ p.config.max_traded_volume x
        || ltb_ℤ p.config.max_traded_notional p.notional_in_window
        || ltb_ℤ p.config.max_delta_volume (abs p.delta_in_window))
      c.traded
    ∙ ap
        (λ x.
          ltb_ℤ p.config.max_traded_volume (volume_of w)
          || ltb_ℤ p.config.max_traded_notional x
          || ltb_ℤ p.config.max_delta_volume (abs p.delta_in_window))
        c.worth
    ∙ ap
        (λ x.
          ltb_ℤ p.config.max_traded_volume (volume_of w)
          || ltb_ℤ p.config.max_traded_notional (notional_of w)
          || ltb_ℤ p.config.max_delta_volume (abs x))
        c.net
    ∙ ap
        (λ x.
          ltb_ℤ p.config.max_traded_volume (volume_of w)
          || ltb_ℤ p.config.max_traded_notional (notional_of w)
          || x)
        (over-abs p.config.max_delta_volume (delta_of w) d)
