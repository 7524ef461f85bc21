-- ===== src/Contingent.antt =====
-- luv_contingent_orders.hpp, `ContingentOrderManager`. The manager is the list of the first
-- `order_count_` entries of `orders_`: the others are never read, and hold the default order.
pub mod Trailing
pub mod Pairs
mod Tests
use luv_flicker.Base.{
  ℕ, ◌+◌, ◌-◌, ◌%◌, ◌^◌, Bool, true, false, not, ◌&&◌, Option, none, some, List, [], ◌∷◌, ◌++◌, map,
  if◌then◌else◌, ◌==◌, ltb, leb, length,
}

pub data ContingencyType : Type 0 where
  oco oto trailing_stop : ContingencyType

pub data ContingentState : Type 0 where
  inactive active triggered cancelled filled : ContingentState

pub record ContingentOrder : Type 0 where
  pub order_id : ℕ
  pub parent_id : ℕ
  pub pair_order_id : ℕ
  pub is_buy : Bool
  pub limit_price : ℕ
  pub stop_price : ℕ
  pub trailing_delta : ℕ
  pub peak_price : ℕ
  pub quantity : ℕ
  pub contingency : ContingencyType
  pub state : ContingentState

abbrev pub is_oco : ContingencyType → Bool
is_oco ContingencyType.oco = true
is_oco _ = false

abbrev pub is_trailing : ContingencyType → Bool
is_trailing ContingencyType.trailing_stop = true
is_trailing _ = false

abbrev pub is_active : ContingentState → Bool
is_active ContingentState.active = true
is_active _ = false

abbrev pub max_orders : ℕ
max_orders = 128

abbrev pub new_order : ContingentOrder
new_order = record {
  order_id = 0;
  parent_id = 0;
  pair_order_id = 0;
  is_buy = true;
  limit_price = 0;
  stop_price = 0;
  trailing_delta = 0;
  peak_price = 0;
  quantity = 0;
  contingency = ContingencyType.oco;
  state = ContingentState.inactive;
}

-- The limit leg of a pair.
unfoldable pub limit_leg : ℕ → ℕ → ℕ → Bool → ℕ → ContingentOrder
limit_leg order_id pair price is_buy qty = record new_order {
  order_id = order_id;
  pair_order_id = pair;
  is_buy = is_buy;
  limit_price = price;
  quantity = qty;
  contingency = ContingencyType.oco;
  state = ContingentState.active;
}

-- The stop leg of a pair.
unfoldable pub stop_leg : ℕ → ℕ → ℕ → Bool → ℕ → ContingentOrder
stop_leg order_id pair price is_buy qty = record new_order {
  order_id = order_id;
  pair_order_id = pair;
  is_buy = is_buy;
  stop_price = price;
  quantity = qty;
  contingency = ContingencyType.oco;
  state = ContingentState.active;
}

unfoldable pub add_oco_pair :
    List ContingentOrder → ℕ → ℕ → ℕ → ℕ → Bool → ℕ → List ContingentOrder × Bool
add_oco_pair orders a limit_price b stop_price is_buy qty =
    if ltb max_orders (length orders + 2) then (orders, false) else (
      orders ++ limit_leg a b limit_price is_buy qty ∷ stop_leg b a stop_price is_buy qty ∷ [],
      true,
    )

-- The stop of a trailing stop with this peak, where the source sets both. A subtraction below zero
-- gives 0, an addition wraps.
unfoldable pub trailing_price : Bool → ℕ → ℕ → ℕ
trailing_price is_buy peak delta =
    if is_buy then (peak + delta) % 2 ^ 64 else if ltb delta peak then peak - delta else 0

unfoldable pub trailing_order : ℕ → Bool → ℕ → ℕ → ℕ → ContingentOrder
trailing_order order_id is_buy price delta qty = record new_order {
  order_id = order_id;
  is_buy = is_buy;
  trailing_delta = delta;
  peak_price = price;
  quantity = qty;
  contingency = ContingencyType.trailing_stop;
  state = ContingentState.active;
  stop_price = trailing_price is_buy price delta;
}

unfoldable pub add_trailing_stop :
    List ContingentOrder → ℕ → Bool → ℕ → ℕ → ℕ → List ContingentOrder × Bool
add_trailing_stop orders order_id is_buy price delta qty =
    if leb max_orders (length orders)
    then (orders, false)
    else (orders ++ trailing_order order_id is_buy price delta qty ∷ [], true)

-- A new peak, and the stop that follows it.
unfoldable pub move_peak : ContingentOrder → ℕ → ContingentOrder
move_peak ord price = record ord {
  peak_price = price;
  stop_price = trailing_price ord.is_buy price ord.trailing_delta;
}

unfoldable pub with_state : ContingentState → ContingentOrder → ContingentOrder
with_state s ord = record ord { state = s }

-- One order under a price: the body of the loop of `on_market_price`.
unfoldable pub tick : ℕ → ContingentOrder → ContingentOrder
unfolding move_peak with_state
tick price ord =
    if not (is_active ord.state)
    then ord
    else if not (is_trailing ord.contingency)
    then ord
    else if not ord.is_buy
    then if ltb ord.peak_price price
      then move_peak ord price
      else if leb price ord.stop_price && ltb 0 ord.stop_price
      then with_state ContingentState.triggered ord
      else ord
    else if ltb price ord.peak_price
    then move_peak ord price
    else if leb ord.stop_price price
    then with_state ContingentState.triggered ord
    else ord

unfoldable pub on_market_price : ℕ → List ContingentOrder → List ContingentOrder
on_market_price price orders = map (tick price) orders

unfoldable pub cancel_order : List ContingentOrder → ℕ → List ContingentOrder
unfolding with_state
cancel_order [] order_id = []
cancel_order (o ∷ os) order_id =
    let rest = cancel_order os order_id in
    if (o.order_id == order_id) && is_active o.state
    then with_state ContingentState.cancelled o ∷ os
    else o ∷ rest

-- `get_order`, without the pointer: the first order with the number.
unfoldable pub get_order : List ContingentOrder → ℕ → Option ContingentOrder
get_order [] order_id = none
get_order (o ∷ os) order_id =
    let rest = get_order os order_id in if o.order_id == order_id then some o else rest

-- The first order with the number becomes filled.
unfoldable pub mark_filled : List ContingentOrder → ℕ → List ContingentOrder
unfolding with_state
mark_filled [] order_id = []
mark_filled (o ∷ os) order_id =
    let rest = mark_filled os order_id in
    if o.order_id == order_id then with_state ContingentState.filled o ∷ os else o ∷ rest

-- The loop stops at the first order with the number; `cancel_order` runs over the whole list.
unfoldable pub on_order_fill : List ContingentOrder → ℕ → List ContingentOrder
unfolding get_order mark_filled cancel_order
on_order_fill orders order_id = elim (get_order orders order_id) [
  | none ↦ orders
  | some o ↦
      if is_oco o.contingency && ltb 0 o.pair_order_id
      then cancel_order (mark_filled orders order_id) o.pair_order_id
      else mark_filled orders order_id
]
