-- ===== src/Exec/Slots.antt =====
-- luv_execution.hpp: the order slots of a symbol, `reserve_order_slot` and `release_order_slot`, and
-- the changes that the reports make to a slot.
pub mod Held
pub mod Settled
use luv_flicker.Base.{
  ℕ, zero, suc, ◌+◌, ◌-◌, ◌%◌, ◌^◌, ℤ, pos, ◌+ℤ◌, ◌-ℤ◌, ◌*ℤ◌, eqb_ℤ, ltb_ℤ, Bool, true, false, not,
  ◌&&◌, ◌||◌, List, [], ◌∷◌, Option, none, some, if◌then◌else◌, ◌==◌, leb, set,
}
use luv_flicker.Arena.Orders.{ActiveOrder, RiskState, SymbolExecState, no_order, max_active_orders}
use luv_flicker.Exec.Types.{OrderIntent, signed_qty_delta}

-- Neither empty nor done.
unfoldable pub is_open : ActiveOrder → Bool
is_open o = not (o.state == 0) && not (o.state == 3)

-- The first order that a loop stops at, with its slot.
unfoldable pub search_orders : (ActiveOrder → Bool) → List ActiveOrder → Option (ℕ × ActiveOrder)
search_orders p [] = none
search_orders p (o ∷ os) =
    let rest = search_orders p os in
    if p o then some (0, o) else elim rest [ none ↦ none | some (i, x) ↦ some (suc i, x) ]

unfoldable pub is_free : ActiveOrder → Bool
is_free o = (o.state == 0) || (o.state == 3)

-- The order of an id that a report finds: any but an empty slot.
unfoldable pub has_id : ℕ → ActiveOrder → Bool
has_id order_id o = (o.order_id == order_id) && not (o.state == 0)

unfoldable pub has_open_id : ℕ → ActiveOrder → Bool
has_open_id order_id o = (o.order_id == order_id) && not (o.state == 0) && not (o.state == 3)

-- The order of an id in any slot, an empty one too.
unfoldable pub same_id : ℕ → ActiveOrder → Bool
same_id order_id o = o.order_id == order_id

unfoldable pub live_order : OrderIntent → ActiveOrder
live_order intent = record {
  order_id = intent.client_order_id;
  price = intent.price;
  qty = intent.qty;
  filled_qty = pos 0;
  symbol_idx = intent.symbol_idx;
  side = intent.side % 2;
  state = 1;
  time_in_force = intent.time_in_force;
}

unfoldable pub count_down : ℕ → ℕ
count_down n = if n == 0 then 0 else n - 1

-- `order = ActiveOrder{}` and what goes back to the risk state with it.
unfoldable pub close_slot : SymbolExecState → ℕ → ℕ → ℤ → ℤ → SymbolExecState
unfolding count_down
close_slot st slot side price qty = record {
  orders = set st.orders slot no_order;
  risk = record st.risk {
    net_position = st.risk.net_position -ℤ signed_qty_delta side qty;
    gross_exposure = st.risk.gross_exposure -ℤ price *ℤ qty;
    order_count = count_down st.risk.order_count;
  };
}

unfoldable pub reserve_order_slot : SymbolExecState → OrderIntent → SymbolExecState × Bool
unfolding live_order
reserve_order_slot st intent =
    if leb max_active_orders st.risk.order_count
    then (
      record st {
        risk = record st.risk { halted = 1; reject_count = (st.risk.reject_count + 1) % 2 ^ 32 };
      },
      false,
    )
    else elim (search_orders is_free st.orders) [
      | none ↦ (st, false)
      | some (slot, o) ↦ (
        record {
          orders = set st.orders slot (live_order intent);
          risk = record st.risk {
            net_position = st.risk.net_position +ℤ signed_qty_delta intent.side intent.qty;
            gross_exposure = st.risk.gross_exposure +ℤ intent.price *ℤ intent.qty;
            order_count = st.risk.order_count + 1;
          };
        },
        true,
      )
    ]

unfoldable pub release_order_slot : SymbolExecState → OrderIntent → SymbolExecState
unfolding close_slot
release_order_slot st intent = elim (search_orders (same_id intent.client_order_id) st.orders) [
  | none ↦ st
  | some (slot, o) ↦ close_slot st slot intent.side intent.price intent.qty
]

-- The order after a fill: what is left, and done or partly filled.
unfoldable pub filled_order : ActiveOrder → ℤ → Bool → ActiveOrder
filled_order o filled terminal = record o {
  filled_qty = o.filled_qty +ℤ filled;
  qty = o.qty -ℤ filled;
  state = if terminal || eqb_ℤ (o.qty -ℤ filled) (pos 0) then 3 else 2;
}

-- A terminal report gives back what it leaves open.
unfoldable pub fill_slot : SymbolExecState → ℕ → ActiveOrder → ℤ → Bool → SymbolExecState
unfolding filled_order count_down
fill_slot st slot o filled terminal =
    let left = o.qty -ℤ filled in
    let gives_back = terminal && ltb_ℤ (pos 0) left in
    record {
      orders = set st.orders slot (filled_order o filled terminal);
      risk = record st.risk {
        net_position =
            if gives_back
            then st.risk.net_position -ℤ signed_qty_delta o.side left
            else st.risk.net_position;
        gross_exposure =
            if gives_back
            then st.risk.gross_exposure -ℤ o.price *ℤ left
            else st.risk.gross_exposure;
        order_count =
            if terminal || eqb_ℤ left (pos 0)
            then count_down st.risk.order_count
            else st.risk.order_count;
      };
    }

unfoldable pub replace_slot : SymbolExecState → ℕ → ActiveOrder → ℤ → ℤ → SymbolExecState
replace_slot st slot o new_qty new_price = record {
  orders = set st.orders slot (record o { qty = new_qty; price = new_price });
  risk = record st.risk {
    net_position =
        st.risk.net_position +ℤ (signed_qty_delta o.side new_qty -ℤ signed_qty_delta o.side o.qty);
    gross_exposure = st.risk.gross_exposure +ℤ (new_price *ℤ new_qty -ℤ o.price *ℤ o.qty);
  };
}
