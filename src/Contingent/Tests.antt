-- ===== src/Contingent/Tests.antt =====
-- Runs of luv_contingent_orders.hpp.
use luv_flicker.Base.{◌≡◌, refl, true, false, some, List, [], ◌∷◌, get_elem?, arith}
use mathlib.Core.Option
use luv_flicker.Contingent.{
  ContingentOrder, ContingentState, add_oco_pair, add_trailing_stop, limit_leg, stop_leg, get_order,
  on_order_fill, on_market_price, tick, mark_filled, cancel_order, with_state,
}
use luv_flicker.Contingent.Trailing.{
  on_market_prices, is_triggered, falls, add_trailing_stop-triggers,
}
use luv_flicker.Contingent.Pairs.{IsUnique, settled, pair_of, on_order_fill-settled}

-- Take profit at 120, stop loss at 90.
abbrev bracket : List ContingentOrder
bracket = limit_leg 1 2 120 false 10 ∷ stop_leg 2 1 90 false 10 ∷ []

registered : add_oco_pair [] 1 120 2 90 false 10 ≡ (bracket, true)
unfolding add_oco_pair
registered = refl

bracket-IsUnique : IsUnique bracket
unfolding limit_leg stop_leg get_order
bracket-IsUnique = ground arith

first_leg : get_order bracket 1 ≡ some (limit_leg 1 2 120 false 10)
unfolding get_order limit_leg
first_leg = refl

on_order_fill-settled_example :
    get_order (on_order_fill bracket 1) 2
    ≡ Option.map (settled 1 (pair_of (limit_leg 1 2 120 false 10)) 2) (get_order bracket 2)
on_order_fill-settled_example =
    on_order_fill-settled bracket 1 (limit_leg 1 2 120 false 10) bracket-IsUnique first_leg 2

-- The other leg is cancelled.
one_cancels_other :
    on_order_fill bracket 1
    ≡ with_state ContingentState.filled (limit_leg 1 2 120 false 10)
      ∷ with_state ContingentState.cancelled (stop_leg 2 1 90 false 10)
      ∷ []
unfolding on_order_fill get_order mark_filled cancel_order limit_leg stop_leg
one_cancels_other = refl

-- A price at the stop of a pair does nothing.
stop_leg_sleeps : on_market_price 80 bracket ≡ bracket
unfolding on_market_price tick limit_leg stop_leg
stop_leg_sleeps = refl

-- From 100 the price climbs to 110 and falls by 5, the distance.
add_trailing_stop-triggers_example :
    (o : ContingentOrder) × (get_elem?
        (on_market_prices (104 ∷ 110 ∷ 105 ∷ []) (add_trailing_stop bracket 7 false 100 5 10).0)
        2
      ≡ some o)
    × (is_triggered o.state ≡ falls 100 5 (104 ∷ 110 ∷ 105 ∷ []))
add_trailing_stop-triggers_example =
    add_trailing_stop-triggers bracket 7 false 100 5 10 (104 ∷ 110 ∷ 105 ∷ []) (omega arith)
      (λ h. absurd (ground (arith, h)))

falls_at_105 : falls 100 5 (104 ∷ 110 ∷ 105 ∷ []) ≡ true
unfolding falls
falls_at_105 = refl

no_fall : falls 100 6 (104 ∷ 110 ∷ 105 ∷ []) ≡ false
unfolding falls
no_fall = refl
