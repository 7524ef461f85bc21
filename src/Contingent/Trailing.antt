-- ===== src/Contingent/Trailing.antt =====
-- When a trailing stop of luv_contingent_orders.hpp triggers.
use luv_flicker.Base.{
  if◌then◌else◌, ℕ, zero, suc, ◌+◌, ◌^◌, ◌<◌, ◌≤◌, max, min, ◌≡◌, refl, inl, inr, Bool, true, false,
  ◌&&◌, ◌||◌, some, List, [], ◌∷◌, ◌++◌, map, ltb, leb, arith, length, get_elem?, ltb→lt, ap,
  Bool-cases,
}
use luv_flicker.Contingent.{
  ContingentOrder, ContingentState, is_active, is_trailing, max_orders, trailing_order,
  trailing_price, tick, on_market_price, move_peak, with_state, add_trailing_stop,
}

-- The prices of a day, in their order.
unfoldable pub on_market_prices : List ℕ → List ContingentOrder → List ContingentOrder
on_market_prices [] orders = orders
on_market_prices (p ∷ ps) orders = on_market_prices ps (on_market_price p orders)

ticks : List ℕ → ContingentOrder → ContingentOrder
ticks [] o = o
ticks (p ∷ ps) o = ticks ps (tick p o)

abbrev pub is_triggered : ContingentState → Bool
is_triggered ContingentState.triggered = true
is_triggered _ = false

-- Some price is `delta` or more below the highest price before it, which is more than `delta`.
unfoldable pub falls : (highest delta : ℕ) → List ℕ → Bool
falls highest delta [] = false
falls highest delta (p ∷ ps) =
    leb (p + delta) highest && ltb delta highest || falls (max highest p) delta ps

-- Some price is `delta` or more above the lowest price before it.
unfoldable pub rises : (lowest delta : ℕ) → List ℕ → Bool
rises lowest delta [] = false
rises lowest delta (p ∷ ps) = leb (lowest + delta) p || rises (min lowest p) delta ps

-- An active trailing stop on a side, with its stop where its peak puts it.
record Trails (is_buy : Bool) (peak delta : ℕ) (o : ContingentOrder) : Type 0 where
  side : o.is_buy ≡ is_buy
  live : is_active o.state ≡ true
  trailing : is_trailing o.contingency ≡ true
  at_peak : o.peak_price ≡ peak
  distance : o.trailing_delta ≡ delta
  stop : o.stop_price ≡ trailing_price is_buy peak delta

triggered-inactive : (s : ContingentState) → is_triggered s ≡ true → is_active s ≡ false
triggered-inactive ContingentState.triggered h = refl
triggered-inactive ContingentState.inactive h = refl
triggered-inactive ContingentState.active h = absurd (ground (arith, h))
triggered-inactive ContingentState.cancelled h = refl
triggered-inactive ContingentState.filled h = refl

active-triggered : (s : ContingentState) → is_active s ≡ true → is_triggered s ≡ false
active-triggered ContingentState.active h = refl
active-triggered ContingentState.inactive h = refl
active-triggered ContingentState.triggered h = absurd (ground (arith, h))
active-triggered ContingentState.cancelled h = refl
active-triggered ContingentState.filled h = refl

ticks-triggered :
    (ps : List ℕ) (o : ContingentOrder)
    → is_triggered o.state ≡ true
    → is_triggered (ticks ps o).state ≡ true
unfolding ticks tick
ticks-triggered [] o h = h
ticks-triggered (p ∷ ps) o h =
    let still : tick p o ≡ o = ground (arith, triggered-inactive o.state h) in
    rw (still, ticks) (ticks-triggered ps o h)

module _ (o : ContingentOrder) (peak delta p : ℕ) where
  sell-moves : Trails false peak delta o → peak < p → Trails false p delta (tick p o)
  unfolding tick move_peak
  sell-moves t h =
      let live = t.live in
      let trailing = t.trailing in
      let side = t.side in
      let up : ltb o.peak_price p ≡ true = ground (arith, t.at_peak) in
      rw (live, trailing, side, up)
        (record {
          side = refl;
          live = live;
          trailing = trailing;
          at_peak = refl;
          distance = t.distance;
          stop = ap (trailing_price false p) t.distance;
        })

  sell-triggers :
      Trails false peak delta o
      → leb (p + delta) peak && ltb delta peak ≡ true
      → is_triggered (tick p o).state ≡ true
  unfolding tick with_state trailing_price
  sell-triggers t h = ground (arith, t.live, t.trailing, t.side, t.at_peak, t.stop)

  sell-rests :
      Trails false peak delta o
      → p ≤ peak
      → leb (p + delta) peak && ltb delta peak ≡ false
      → tick p o ≡ o
  unfolding tick trailing_price
  sell-rests t h k = ground (arith, t.live, t.trailing, t.side, t.at_peak, t.stop)

  buy-moves : Trails true peak delta o → p < peak → Trails true p delta (tick p o)
  unfolding tick move_peak
  buy-moves t h =
      let live = t.live in
      let trailing = t.trailing in
      let side = t.side in
      let down : ltb p o.peak_price ≡ true = ground (arith, t.at_peak) in
      rw (live, trailing, side, down)
        (record {
          side = refl;
          live = live;
          trailing = trailing;
          at_peak = refl;
          distance = t.distance;
          stop = ap (trailing_price true p) t.distance;
        })

  buy-triggers :
      Trails true peak delta o
      → peak + delta < 2 ^ 64
      → leb (peak + delta) p ≡ true
      → is_triggered (tick p o).state ≡ true
  unfolding tick with_state trailing_price
  buy-triggers t small h = ground (arith, t.live, t.trailing, t.side, t.at_peak, t.stop)

  buy-rests :
      Trails true peak delta o
      → peak + delta < 2 ^ 64
      → peak ≤ p
      → leb (peak + delta) p ≡ false
      → tick p o ≡ o
  unfolding tick trailing_price
  buy-rests t small h k = ground (arith, t.live, t.trailing, t.side, t.at_peak, t.stop)

true_or : (b : Bool) → (true || b) ≡ true
true_or b = refl

ticks-falls :
    (ps : List ℕ) (o : ContingentOrder) (peak delta : ℕ)
    → Trails false peak delta o
    → is_triggered (ticks ps o).state ≡ falls peak delta ps
unfolding ticks falls
ticks-falls [] o peak delta t = active-triggered o.state t.live
ticks-falls (p ∷ ps) o peak delta t = elim (Bool-cases (leb (p + delta) peak && ltb delta peak)) [
  | inl down ↦ rw (down, ticks-triggered ps (tick p o) (sell-triggers o peak delta p t down)) refl
  | inr not_down ↦ elim (Bool-cases (ltb peak p)) [
    | inl up ↦
        let peak_now : max peak p ≡ p = ground arith in
        rw (not_down, peak_now)
          (ticks-falls ps (tick p o) p delta (sell-moves o peak delta p t (ltb→lt peak p up)))
    | inr not_up ↦
        let peak_now : max peak p ≡ peak = ground arith in
        let rests : tick p o ≡ o = sell-rests o peak delta p t (ground arith) not_down in
        rw (not_down, peak_now, rests, ticks) (ticks-falls ps o peak delta t)
  ]
]

ticks-rises :
    (ps : List ℕ) (o : ContingentOrder) (trough delta : ℕ)
    → Trails true trough delta o
    → trough + delta < 2 ^ 64
    → is_triggered (ticks ps o).state ≡ rises trough delta ps
unfolding ticks rises
ticks-rises [] o trough delta t small = active-triggered o.state t.live
ticks-rises (p ∷ ps) o trough delta t small = elim (Bool-cases (ltb p trough)) [
  | inl down ↦
      let trough_now : min trough p ≡ p = ground arith in
      let no : leb (trough + delta) p ≡ false = ground arith in
      rw (no, trough_now)
        (ticks-rises ps (tick p o) p delta (buy-moves o trough delta p t (ltb→lt p trough down))
          (ground arith))
  | inr not_down ↦
      let trough_now : min trough p ≡ trough = ground arith in
      elim (Bool-cases (leb (trough + delta) p)) [
        | inl up ↦
            rw (up, ticks-triggered ps (tick p o) (buy-triggers o trough delta p t small up)) refl
        | inr not_up ↦
            let rests : tick p o ≡ o = buy-rests o trough delta p t small (ground arith) not_up in
            rw (not_up, trough_now, rests, ticks) (ticks-rises ps o trough delta t small)
      ]
]

get_elem?-map :
    (f : ContingentOrder → ContingentOrder) (os : List ContingentOrder) (i : ℕ)
    (o : ContingentOrder)
    → get_elem? os i ≡ some o
    → get_elem? (map f os) i ≡ some (f o)
get_elem?-map f [] i o h = absurd (ground (arith, h))
get_elem?-map f (x ∷ os) zero o h = ground (arith, h)
get_elem?-map f (x ∷ os) (suc i) o h = get_elem?-map f os i o h

get_elem?-last :
    (os : List ContingentOrder) (o : ContingentOrder)
    → get_elem? (os ++ o ∷ []) (length os) ≡ some o
get_elem?-last [] o = refl
get_elem?-last (x ∷ os) o = get_elem?-last os o

-- An entry of the book after the prices of a day.
get_elem?-on_market_prices :
    (ps : List ℕ) (os : List ContingentOrder) (i : ℕ) (o : ContingentOrder)
    → get_elem? os i ≡ some o
    → get_elem? (on_market_prices ps os) i ≡ some (ticks ps o)
unfolding on_market_prices on_market_price ticks
get_elem?-on_market_prices [] os i o h = h
get_elem?-on_market_prices (p ∷ ps) os i o h =
    get_elem?-on_market_prices ps (map (tick p) os) i (tick p o) (get_elem?-map (tick p) os i o h)

trailing_order-Trails :
    (id : ℕ) (is_buy : Bool) (price delta qty : ℕ)
    → Trails is_buy price delta (trailing_order id is_buy price delta qty)
unfolding trailing_order
trailing_order-Trails id is_buy price delta qty = record {
  side = refl;
  live = refl;
  trailing = refl;
  at_peak = refl;
  distance = refl;
  stop = refl;
}

last_after :
    (ps : List ℕ) (os : List ContingentOrder) (o : ContingentOrder)
    → get_elem? (on_market_prices ps (os ++ o ∷ [])) (length os) ≡ some (ticks ps o)
last_after ps os o =
    get_elem?-on_market_prices ps (os ++ o ∷ []) (length os) o (get_elem?-last os o)

-- The trailing stop that a manager with room takes in, after the prices of a day: the entry behind
-- those there were. A sell stop is triggered just when some price is the trailing distance or more below the
-- highest price before it, the initial one included, where that highest price is more than the distance; a buy
-- stop, whose initial price and distance have a sum below 2 ^ 64, just when some price is the distance or more
-- above the lowest before it.
pub add_trailing_stop-triggers :
    (os : List ContingentOrder) (id : ℕ) (is_buy : Bool) (price delta qty : ℕ) (ps : List ℕ)
    → length os < max_orders
    → (is_buy ≡ true → price + delta < 2 ^ 64)
    → (o : ContingentOrder) × (get_elem?
          (on_market_prices ps (add_trailing_stop os id is_buy price delta qty).0)
          (length os)
        ≡ some o)
      × (is_triggered o.state ≡ (if is_buy then rises price delta ps else falls price delta ps))
unfolding add_trailing_stop
add_trailing_stop-triggers os id false price delta qty ps room small =
    let has_room : leb max_orders (length os) ≡ false = ground arith in
    let o = trailing_order id false price delta qty in
    let sold = ticks-falls ps o price delta (trailing_order-Trails id false price delta qty) in
    rw has_room (ticks ps o, last_after ps os o, sold)
add_trailing_stop-triggers os id true price delta qty ps room small =
    let has_room : leb max_orders (length os) ≡ false = ground arith in
    let o = trailing_order id true price delta qty in
    let trails = trailing_order-Trails id true price delta qty in
    let bought = ticks-rises ps o price delta trails (small refl) in
    rw has_room (ticks ps o, last_after ps os o, bought)
