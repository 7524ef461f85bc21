-- ===== src/DarkPool.antt =====
-- luv_dark_pool.hpp, `DarkPoolEngine`. `int64_t` values are integers: the difference of a fill cannot
-- overflow, and the sum of the best bid and ask is taken to fit. A null `out_fills` acts as a
-- `max_fills` of 0. `std::sort` may put equal candidates in any order: it is the argument `sort`.
pub mod Orders
pub mod Order
pub mod Loop
pub mod Fills
pub mod Valid
pub mod Priority
pub mod History
mod Tests
use luv_flicker.Base.{
  ℕ, zero, suc, ◌+◌, ◌-◌, ◌/◌, ◌%◌, ◌^◌, ℤ, pos, negsuc, ◌+ℤ◌, ◌-ℤ◌, ltb_ℤ, leb_ℤ, eqb_ℤ, Bool,
  true, false, not, ◌&&◌, ◌||◌, Option, none, some, List, [], ◌∷◌, if◌then◌else◌, ◌==◌, ltb, leb,
  get_or, set, replicate,
}
use luv_flicker.Exec.Types.{buy}

pub data DisplayMode : Type 0 where
  displayed hidden midpoint_peg : DisplayMode

pub record DarkOrder : Type 0 where
  pub order_id : ℕ
  pub firm_id : ℕ
  pub symbol_idx : ℕ
  pub side : ℕ
  pub display_mode : DisplayMode
  pub price : ℤ
  pub qty : ℤ
  pub min_qty : ℤ
  pub priority_ts_ns : ℕ
  pub active : Bool

pub record MatchFill : Type 0 where
  pub maker_order_id : ℕ
  pub taker_order_id : ℕ
  pub symbol_idx : ℕ
  pub match_price : ℤ
  pub match_qty : ℤ
  pub is_midpoint : Bool

-- `orders` has an entry for each of the slots.
pub record DarkPoolEngine : Type 0 where
  pub orders : List DarkOrder
  pub order_count : ℕ

-- The arguments of `match_cross` about the taker and the market.
pub record Taker : Type 0 where
  pub order_id : ℕ
  pub firm_id : ℕ
  pub symbol_idx : ℕ
  pub side : ℕ
  pub price : ℤ
  pub qty : ℤ
  pub best_bid : ℤ
  pub best_ask : ℤ

abbrev pub max_resting_orders : ℕ
max_resting_orders = 1024

abbrev pub no_dark_order : DarkOrder
no_dark_order = record {
  order_id = 0;
  firm_id = 0;
  symbol_idx = 0;
  side = buy;
  display_mode = DisplayMode.displayed;
  price = pos 0;
  qty = pos 0;
  min_qty = pos 0;
  priority_ts_ns = 0;
  active = false;
}

-- `DarkPoolEngine()`.
abbrev pub empty_pool : DarkPoolEngine
empty_pool = record { orders = replicate max_resting_orders no_dark_order; order_count = 0 }

abbrev pub is_displayed : DisplayMode → Bool
is_displayed DisplayMode.displayed = true
is_displayed _ = false

abbrev pub is_peg : DisplayMode → Bool
is_peg DisplayMode.midpoint_peg = true
is_peg _ = false

-- The first entry that is not active takes the order.
unfoldable pub put_order : List DarkOrder → DarkOrder → Option (List DarkOrder)
put_order [] o = none
put_order (x ∷ xs) o =
    let rest = put_order xs o in
    if not x.active then some (o ∷ xs) else elim rest [ none ↦ none | some ys ↦ some (x ∷ ys) ]

-- `order` is the order of the arguments, active.
unfoldable pub add_order : DarkPoolEngine → DarkOrder → DarkPoolEngine × Bool
unfolding put_order
add_order pool order =
    if leb max_resting_orders pool.order_count || leb_ℤ order.qty (pos 0)
    then (pool, false)
    else elim (put_order pool.orders (record order { active = true })) [
      | none ↦ (pool, false)
      | some orders ↦ (record { orders = orders; order_count = pool.order_count + 1 }, true)
    ]

unfoldable pub deactivate : DarkOrder → DarkOrder
deactivate o = record o { active = false }

-- `order_count_--` on a size_t.
abbrev pub decrement : ℕ → ℕ
decrement n = (n + (2 ^ 64 - 1)) % 2 ^ 64

-- The first active order with the number is withdrawn.
unfoldable pub take_order : List DarkOrder → ℕ → Option (List DarkOrder)
unfolding deactivate
take_order [] order_id = none
take_order (x ∷ xs) order_id =
    let rest = take_order xs order_id in
    if x.active && (x.order_id == order_id)
    then some (deactivate x ∷ xs)
    else elim rest [ none ↦ none | some ys ↦ some (x ∷ ys) ]

unfoldable pub cancel_order : DarkPoolEngine → ℕ → DarkPoolEngine × Bool
unfolding take_order
cancel_order pool order_id = elim (take_order pool.orders order_id) [
  | none ↦ (pool, false)
  | some orders ↦ (record { orders = orders; order_count = decrement pool.order_count }, true)
]

-- Division by 2 as in C++: towards 0.
unfoldable pub half : ℤ → ℤ
half (pos n) = pos (n / 2)
half (negsuc n) = pos 0 -ℤ pos ((n + 1) / 2)

unfoldable pub midpoint_price : Taker → ℤ
unfolding half
midpoint_price t = half (t.best_bid +ℤ t.best_ask)

unfoldable pub effective_price : Taker → DarkOrder → ℤ
effective_price t o = if is_peg o.display_mode then midpoint_price t else o.price

unfoldable pub price_cross : Taker → ℤ → Bool
price_cross t p = if t.side == buy then leb_ℤ p t.price else leb_ℤ t.price p

-- The tests of the loop that collects the candidates.
unfoldable pub is_candidate : Taker → DarkOrder → Bool
unfolding price_cross effective_price
is_candidate t o =
    if not o.active || not (o.symbol_idx == t.symbol_idx) || o.side == t.side
    then false
    else if o.firm_id == t.firm_id
    then false
    else price_cross t (effective_price t o)

-- The indices of the candidates among the orders from index `i` on.
unfoldable pub candidates : Taker → List DarkOrder → ℕ → List ℕ
unfolding is_candidate
candidates t [] i = []
candidates t (o ∷ os) i =
    let rest = candidates t os (i + 1) in if is_candidate t o then i ∷ rest else rest

-- The comparison that `std::sort` is given, on orders.
unfoldable pub goes_before : Taker → DarkOrder → DarkOrder → Bool
unfolding effective_price
goes_before t a b =
    let pa = effective_price t a in
    let pb = effective_price t b in
    if not (eqb_ℤ pa pb)
    then if t.side == buy then ltb_ℤ pa pb else ltb_ℤ pb pa
    else if not (is_displayed a.display_mode) && is_displayed b.display_mode
    then false
    else if is_displayed a.display_mode && not (is_displayed b.display_mode)
    then true
    else ltb a.priority_ts_ns b.priority_ts_ns

-- The comparison on indices.
unfoldable pub index_before : Taker → List DarkOrder → ℕ → ℕ → Bool
index_before t orders a b =
    goes_before t (get_or orders a no_dark_order) (get_or orders b no_dark_order)

abbrev pub min_ℤ : ℤ → ℤ → ℤ
min_ℤ a b = if ltb_ℤ b a then b else a

-- The maker after a fill.
unfoldable pub reduce_maker : DarkOrder → ℤ → DarkOrder
reduce_maker o fill_qty = record o {
  qty = o.qty -ℤ fill_qty;
  active = if eqb_ℤ (o.qty -ℤ fill_qty) (pos 0) then false else o.active;
}

unfoldable pub fill_of : Taker → DarkOrder → ℤ → MatchFill
fill_of t o fill_qty = record {
  maker_order_id = o.order_id;
  taker_order_id = t.order_id;
  symbol_idx = t.symbol_idx;
  match_price = effective_price t o;
  match_qty = fill_qty;
  is_midpoint = is_peg o.display_mode;
}

-- The pool after a fill of the order at an index.
unfoldable pub apply_fill : DarkPoolEngine → ℕ → ℤ → DarkPoolEngine
apply_fill pool i fill_qty =
    let maker = get_or pool.orders i no_dark_order in
    record {
      orders = set pool.orders i (reduce_maker maker fill_qty);
      order_count =
          if eqb_ℤ (maker.qty -ℤ fill_qty) (pos 0)
          then decrement pool.order_count
          else pool.order_count;
    }

-- The minimum quantity of the maker refuses the fill.
unfoldable pub too_small : DarkOrder → ℤ → Bool
too_small o fill_qty = ltb_ℤ (pos 0) o.min_qty && ltb_ℤ fill_qty o.min_qty

-- The loop over the sorted candidates, with what is left of the taker and of the room for fills.
unfoldable pub fill_loop : Taker → List ℕ → DarkPoolEngine → ℤ → ℕ → DarkPoolEngine × List MatchFill
fill_loop t [] pool remaining room = (pool, [])
fill_loop t (i ∷ is) pool remaining room =
    let maker = get_or pool.orders i no_dark_order in
    let fill_qty = min_ℤ remaining maker.qty in
    elim ((room == 0) || leb_ℤ remaining (pos 0)) [
      | true ↦ (pool, [])
      | false ↦ elim (too_small maker fill_qty) [
        | true ↦ fill_loop t is pool remaining room
        | false ↦
            let rest =
              fill_loop t is (apply_fill pool i fill_qty) (remaining -ℤ fill_qty) (room - 1) in
            (rest.0, fill_of t maker fill_qty ∷ rest.1)
      ]
    ]

-- `candidate_indices`, sorted.
unfoldable pub sorted_candidates :
    (sort : (ℕ → ℕ → Bool) → List ℕ → List ℕ) → Taker → List DarkOrder → List ℕ
unfolding index_before candidates
sorted_candidates sort t orders = sort (index_before t orders) (candidates t orders 0)

-- The fills written to `out_fills`; `fill_count` is their number.
unfoldable pub match_cross :
    (sort : (ℕ → ℕ → Bool) → List ℕ → List ℕ)
    → DarkPoolEngine
    → Taker
    → (max_fills : ℕ) → DarkPoolEngine × List MatchFill
match_cross sort pool t max_fills =
    if max_fills == 0 || leb_ℤ t.qty (pos 0)
    then (pool, [])
    else fill_loop t (sorted_candidates sort t pool.orders) pool t.qty max_fills
