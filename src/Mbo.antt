-- ===== src/Mbo.antt =====
-- luv_mbo.hpp: the market-by-order book. The fixed array of 4096 orders is a list; each loop over it
-- stops at the first order that fits, and is a recursion on the list. Quantities and prices are
-- int64_t values, as integers.
mod Tests
pub mod Priority
pub mod Count
use luv_flicker.Base.{
  ℕ, ◌+◌, ◌-◌, ◌%◌, ◌^◌, ℤ, pos, negsuc, ◌+ℤ◌, ◌-ℤ◌, ltb_ℤ, leb_ℤ, eqb_ℤ, Bool, true, false, not,
  ◌&&◌, ◌||◌, Option, none, some, List, [], ◌∷◌, if◌then◌else◌, ◌==◌, leb, ltb, replicate,
}

pub record MboOrder : Type 0 where
  pub order_id : ℕ
  pub symbol_idx : ℕ
  pub side : ℕ
  pub price : ℤ
  pub qty : ℤ
  pub priority_ts : ℕ
  pub active : Bool

pub record MboBook : Type 0 where
  pub orders : List MboOrder
  pub order_count : ℕ

abbrev pub max_orders : ℕ
max_orders = 4096

abbrev pub holds : MboOrder → ℕ → Bool
holds o order_id = o.active && o.order_id == order_id

-- The first loop of `add_order`: is the id taken?
unfoldable pub taken : List MboOrder → ℕ → Bool
taken [] order_id = false
taken (o ∷ os) order_id = holds o order_id || taken os order_id

-- The second loop: write over the first order that is not active, if there is one.
unfoldable pub fill_free : List MboOrder → MboOrder → Option (List MboOrder)
fill_free [] new = none
fill_free (o ∷ os) new =
    let rest = fill_free os new in
    if not o.active then some (new ∷ os) else elim rest [ none ↦ none | some os' ↦ some (o ∷ os') ]

unfoldable pub add_order : MboBook → ℕ → ℕ → ℕ → ℤ → ℤ → ℕ → MboBook × Bool
add_order b order_id symbol side price qty ts =
    let new : MboOrder = record {
      order_id = order_id;
      symbol_idx = symbol;
      side = side;
      price = price;
      qty = qty;
      priority_ts = ts;
      active = true;
    } in
    let filled = fill_free b.orders new in
    if leb max_orders b.order_count || leb_ℤ qty (pos 0)
    then (b, false)
    else if taken b.orders order_id
    then (b, false)
    else elim filled [
      | none ↦ (b, false)
      | some os ↦ (record { orders = os; order_count = b.order_count + 1 }, true)
    ]

-- `order_count_--` is on size_t. What an operation does with the order that it finds: keep it, changed, or drop it.
pub data Verdict : Type 0 where
  keep : MboOrder → Verdict
  drop : Verdict

-- The loop of modify, cancel and execute: the first active order with the id.
unfoldable pub settle : MboOrder → List MboOrder → ℕ → Verdict → MboBook
settle o os n (keep o') = record { orders = o' ∷ os; order_count = n }
settle o os n drop = record {
  orders = record o { active = false } ∷ os;
  order_count = (n + 2 ^ 64 - 1) % 2 ^ 64;
}

unfoldable pub at_order : (MboOrder → Verdict) → List MboOrder → ℕ → ℕ → MboBook × Bool
at_order act [] n order_id = (record { orders = []; order_count = n }, false)
at_order act (o ∷ os) n order_id =
    let rest = at_order act os n order_id in
    if holds o order_id
    then (settle o os n (act o), true)
    else (record { orders = o ∷ rest.0.orders; order_count = rest.0.order_count }, rest.1)

-- A changed price or a grown quantity loses the time priority.
unfoldable pub modified : ℤ → ℤ → ℕ → MboOrder → Verdict
modified new_qty new_price new_ts o =
    if leb_ℤ new_qty (pos 0)
    then drop
    else keep (record o {
      priority_ts =
          if not (eqb_ℤ new_price o.price) || ltb_ℤ o.qty new_qty then new_ts else o.priority_ts;
      price = new_price;
      qty = new_qty;
    })

unfoldable pub modify_order : MboBook → ℕ → ℤ → ℤ → ℕ → MboBook × Bool
modify_order b order_id new_qty new_price new_ts =
    at_order (modified new_qty new_price new_ts) b.orders b.order_count order_id

unfoldable pub cancel_order : MboBook → ℕ → MboBook × Bool
cancel_order b order_id = at_order (λ o. drop) b.orders b.order_count order_id

unfoldable pub executed : ℤ → MboOrder → Verdict
executed exec_qty o =
    if leb_ℤ o.qty exec_qty then drop else keep (record o { qty = o.qty -ℤ exec_qty })

unfoldable pub execute_order : MboBook → ℕ → ℤ → MboBook × Bool
execute_order b order_id exec_qty = at_order (executed exec_qty) b.orders b.order_count order_id

unfoldable pub find_order : List MboOrder → ℕ → Option MboOrder
find_order [] order_id = none
find_order (o ∷ os) order_id = if holds o order_id then some o else find_order os order_id

-- The order `o` rests ahead of `target` in its queue.
unfoldable pub rests_ahead : MboOrder → MboOrder → Bool
rests_ahead target o =
    o.active
    && o.symbol_idx == target.symbol_idx
    && o.side == target.side
    && eqb_ℤ o.price target.price
    && not (o.order_id == target.order_id)
    && ltb o.priority_ts target.priority_ts

unfoldable pub sum_ahead : MboOrder → List MboOrder → ℤ → ℤ
sum_ahead target [] total = total
sum_ahead target (o ∷ os) total =
    sum_ahead target os (if rests_ahead target o then total +ℤ o.qty else total)

unfoldable pub compute_queue_ahead : MboBook → ℕ → ℤ
compute_queue_ahead b order_id = elim (find_order b.orders order_id) [
  | none ↦ negsuc 0
  | some target ↦ sum_ahead target b.orders (pos 0)
]

abbrev pub empty_order : MboOrder
empty_order = record {
  order_id = 0;
  symbol_idx = 0;
  side = 0;
  price = pos 0;
  qty = pos 0;
  priority_ts = 0;
  active = false;
}

-- The constructor.
unfoldable pub empty_book : MboBook
empty_book = record { orders = replicate max_orders empty_order; order_count = 0 }
