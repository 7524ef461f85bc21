-- ===== src/Contingent/Pairs.antt =====
-- What a fill does to the pairs of luv_contingent_orders.hpp.
use luv_flicker.Base.{
  ℕ, ◌≡◌, refl, fun_ext, inl, inr, true, ◌&&◌, Option, none, some, List, [], ◌∷◌, if◌then◌else◌,
  ◌==◌, ltb, arith, Bool-cases,
}
use mathlib.Core.Option
use luv_flicker.Contingent.{
  ContingentOrder, ContingentState, is_oco, is_active, get_order, mark_filled, cancel_order,
  on_order_fill, with_state,
}

-- No two orders have the same number.
abbrev pub IsUnique : List ContingentOrder → Type 0
IsUnique [] = Unit
IsUnique (o ∷ os) = (get_order os o.order_id ≡ none) × IsUnique os

-- What a fill of order `id` with pair `pair` makes of order `j`; pair 0 is no pair.
unfoldable pub settled : (id pair j : ℕ) → ContingentOrder → ContingentOrder
settled id pair j o =
    if (j == id)
    then with_state ContingentState.filled o
    else if ltb 0 pair && (j == pair) && is_active o.state
    then with_state ContingentState.cancelled o
    else o

unfoldable pub cancelled_as : (id j : ℕ) → ContingentOrder → ContingentOrder
cancelled_as id j o =
    if (j == id) && is_active o.state then with_state ContingentState.cancelled o else o

unfoldable pub filled_as : (id j : ℕ) → ContingentOrder → ContingentOrder
filled_as id j o = if j == id then with_state ContingentState.filled o else o

get_order-mark_filled :
    (os : List ContingentOrder) (id j : ℕ)
    → get_order (mark_filled os id) j ≡ Option.map (filled_as id j) (get_order os j)
unfolding get_order mark_filled with_state filled_as
get_order-mark_filled [] id j = refl
get_order-mark_filled (o ∷ os) id j = ground (arith, get_order-mark_filled os id j)

get_order-cancel_order :
    (os : List ContingentOrder) (id j : ℕ)
    → IsUnique os
    → get_order (cancel_order os id) j ≡ Option.map (cancelled_as id j) (get_order os j)
unfolding get_order cancel_order with_state cancelled_as
get_order-cancel_order [] id j u = refl
get_order-cancel_order (o ∷ os) id j u = ground (arith, get_order-cancel_order os id j u.1)

none-mark_filled :
    (os : List ContingentOrder) (id j : ℕ)
    → get_order os j ≡ none
    → get_order (mark_filled os id) j ≡ none
none-mark_filled os id j h = rw (get_order-mark_filled os id j, h) refl

IsUnique-mark_filled :
    (os : List ContingentOrder) (id : ℕ) → IsUnique os → IsUnique (mark_filled os id)
unfolding mark_filled with_state
IsUnique-mark_filled [] id u = u
IsUnique-mark_filled (o ∷ os) id u = elim (Bool-cases (o.order_id == id)) [
  | inl e ↦ rw e u
  | inr e ↦ rw e (none-mark_filled os id o.order_id u.0, IsUnique-mark_filled os id u.1)
]

map-map :
    (f g : ContingentOrder → ContingentOrder) (o : Option ContingentOrder)
    → Option.map f (Option.map g o) ≡ Option.map (λ x. f (g x)) o
map-map f g none = refl
map-map f g (some o) = refl

settled-paired :
    (id pair j : ℕ)
    → ltb 0 pair ≡ true
    → (o : ContingentOrder) → cancelled_as pair j (filled_as id j o) ≡ settled id pair j o
unfolding cancelled_as filled_as settled with_state
settled-paired id pair j h o = ground arith

settled-single : (id j : ℕ) (o : ContingentOrder) → filled_as id j o ≡ settled id 0 j o
unfolding filled_as settled
settled-single id j o = ground arith

-- The number of the order that a fill of `o` cancels; 0 is none.
unfoldable pub pair_of : ContingentOrder → ℕ
pair_of o = if is_oco o.contingency && ltb 0 o.pair_order_id then o.pair_order_id else 0

-- In a book without two orders of one number, after the fill of a known order that order is
-- filled, its pair, when it is a one-cancels-other order with a pair, is cancelled if it was active, and every other order is
-- as before; no order comes or goes.
pub on_order_fill-settled :
    (os : List ContingentOrder) (id : ℕ) (o : ContingentOrder)
    → IsUnique os
    → get_order os id ≡ some o
    → (j : ℕ)
    → get_order (on_order_fill os id) j ≡ Option.map (settled id (pair_of o) j) (get_order os j)
unfolding on_order_fill pair_of
on_order_fill-settled os id o u found j =
    elim (Bool-cases (is_oco o.contingency && ltb 0 o.pair_order_id)) [
      | inl paired ↦
          let some_pair : ltb 0 o.pair_order_id ≡ true = ground (arith, paired) in
          rw
            (
              on_order_fill,
              pair_of,
              found,
              paired,
              get_order-cancel_order (mark_filled os id) o.pair_order_id j
                  (IsUnique-mark_filled os id u),
              get_order-mark_filled os id j,
              map-map (cancelled_as o.pair_order_id j) (filled_as id j) (get_order os j),
              fun_ext (settled-paired id o.pair_order_id j some_pair),
            )
            refl
      | inr single ↦
          rw
            (
              on_order_fill,
              pair_of,
              found,
              single,
              get_order-mark_filled os id j,
              fun_ext (settled-single id j),
            )
            refl
    ]
