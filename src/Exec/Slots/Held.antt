-- ===== src/Exec/Slots/Held.antt =====
-- What the orders of a symbol in luv_execution.hpp hold in its risk state, and what a write to a slot
-- does to it.
use luv_flicker.Base.{
  ℕ, suc, ◌+◌, ◌%◌, ◌≡◌, ℤ, pos, ◌+ℤ◌, ◌-ℤ◌, ◌*ℤ◌, Bool, true, false, List, [], ◌∷◌, some,
  if◌then◌else◌, ◌==◌, set, length, arith, int_laws, parts_eq, refl, Option-cases, Bool-cases,
  length-set, ◌∙◌, inl, inr,
}
use luv_flicker.Arena.Orders.{ActiveOrder, RiskState, SymbolExecState, max_active_orders}
use luv_flicker.Exec.Types.{signed_qty_delta}
use luv_flicker.Exec.Slots.{is_open, search_orders, is_free}

-- What an order holds in the number of orders, in the position and in the exposure.
unfoldable pub held_count : ActiveOrder → ℕ
held_count o = if is_open o then 1 else 0

unfoldable pub held_qty : ActiveOrder → ℤ
held_qty o = if is_open o then signed_qty_delta o.side o.qty else pos 0

unfoldable pub held_notional : ActiveOrder → ℤ
held_notional o = if is_open o then o.price *ℤ o.qty else pos 0

unfoldable pub open_count : List ActiveOrder → ℕ
open_count [] = 0
open_count (o ∷ os) = held_count o + open_count os

unfoldable pub total : (ActiveOrder → ℤ) → List ActiveOrder → ℤ
total f [] = pos 0
total f (o ∷ os) = f o +ℤ total f os

-- The books after the fills: the position and the exposure without what the open orders hold, and
-- the number of orders is that of the open ones.
pub record Books (st : SymbolExecState) (position exposure : ℤ) : Type 0 where
  pub slots : length st.orders ≡ max_active_orders
  pub count : st.risk.order_count ≡ open_count st.orders
  pub net : st.risk.net_position ≡ position +ℤ total held_qty st.orders
  pub gross : st.risk.gross_exposure ≡ exposure +ℤ total held_notional st.orders

module _ (p : ActiveOrder → Bool) where
  pub search_orders-holds :
      (xs : List ActiveOrder) {i : ℕ} {o : ActiveOrder}
      → search_orders p xs ≡ some (i, o)
      → p o ≡ true
  unfolding search_orders
  search_orders-holds [] e = ground arith
  search_orders-holds (x ∷ xs) e = elim (Option-cases (search_orders p xs)) [
    | inl none_found ↦ ground arith
    | inr ((j, y), found) ↦ let rest = search_orders-holds xs {i = j} {o = y} found in ground arith
  ]

  total-set :
      (f : ActiveOrder → ℤ) (v : ActiveOrder) (xs : List ActiveOrder) {i : ℕ} {o : ActiveOrder}
      → search_orders p xs ≡ some (i, o)
      → total f (set xs i v) +ℤ f o ≡ total f xs +ℤ f v
  unfolding search_orders total
  total-set f v [] e = ground arith
  total-set f v (x ∷ xs) {i} {o} e = elim (Bool-cases (p x)) [
    | inl here ↦
        let at : i ≡ 0 = ground arith in
        let is : x ≡ o = ground arith in rw (at, is) (omega int_laws)
    | inr there ↦ elim (Option-cases (search_orders p xs)) [
      | inl none_found ↦ absurd (ground arith)
      | inr ((j, y), found) ↦
          let at : i ≡ suc j = ground arith in
          let is : y ≡ o = ground arith in
          rw at (omega (int_laws, parts_eq (total-set f v xs {i = j} {o = o} (rw (← is) found))))
    ]
  ]

  pub open_count-set :
      (v : ActiveOrder) (xs : List ActiveOrder) {i : ℕ} {o : ActiveOrder}
      → search_orders p xs ≡ some (i, o)
      → open_count (set xs i v) + held_count o ≡ open_count xs + held_count v
  unfolding search_orders open_count
  open_count-set v [] e = ground arith
  open_count-set v (x ∷ xs) {i} {o} e = elim (Bool-cases (p x)) [
    | inl here ↦
        let at : i ≡ 0 = ground arith in let is : x ≡ o = ground arith in rw (at, is) (omega arith)
    | inr there ↦ elim (Option-cases (search_orders p xs)) [
      | inl none_found ↦ absurd (ground arith)
      | inr ((j, y), found) ↦
          let at : i ≡ suc j = ground arith in
          let is : y ≡ o = ground arith in
          rw at (omega (arith, open_count-set v xs {i = j} {o = o} (rw (← is) found)))
    ]
  ]

pub held_free :
    (o : ActiveOrder)
    → is_open o ≡ false
    → (held_count o ≡ 0) × (held_qty o ≡ pos 0) × (held_notional o ≡ pos 0)
unfolding held_count held_qty held_notional
held_free o h = (ground arith, ground arith, ground arith)

pub held_open :
    (o : ActiveOrder)
    → is_open o ≡ true
    → (held_count o ≡ 1)
      × (held_qty o ≡ signed_qty_delta o.side o.qty)
      × (held_notional o ≡ o.price *ℤ o.qty)
unfolding held_count held_qty held_notional
held_open o h = (ground arith, ground arith, ground arith)

pub is_free-closed : (o : ActiveOrder) → is_free o ≡ true → is_open o ≡ false
unfolding is_free is_open
is_free-closed o h = ground arith

pub signed_qty_delta-add :
    (side : ℕ) (a b : ℤ)
    → signed_qty_delta side (a -ℤ b) ≡ signed_qty_delta side a -ℤ signed_qty_delta side b
unfolding signed_qty_delta
signed_qty_delta-add side a b = elim (Bool-cases (side % 2 == 0)) [
  | inl even ↦ rw even refl
  | inr odd ↦ rw odd (omega int_laws)
]

-- What a write to a slot does to the books.
pub Books-set :
    (p : ActiveOrder → Bool) (st : SymbolExecState) (risk : RiskState) {i : ℕ} {o : ActiveOrder}
    (v : ActiveOrder) {position exposure position' exposure' : ℤ}
    → search_orders p st.orders ≡ some (i, o)
    → Books st position exposure
    → risk.order_count + held_count o ≡ st.risk.order_count + held_count v
    → (risk.net_position -ℤ position') +ℤ held_qty o
      ≡ (st.risk.net_position -ℤ position) +ℤ held_qty v
    → (risk.gross_exposure -ℤ exposure') +ℤ held_notional o
      ≡ (st.risk.gross_exposure -ℤ exposure) +ℤ held_notional v
    → Books (record { orders = set st.orders i v; risk = risk }) position' exposure'
Books-set p st risk {i} {o} v found b count net gross =
    let slots = b.slots in
    let orders = b.count in
    record {
      slots = length-set st.orders i v ∙ slots;
      count = omega (arith, open_count-set p v st.orders found);
      net = omega (
        int_laws,
        parts_eq (total-set p held_qty v st.orders found),
        parts_eq b.net,
        parts_eq net,
      );
      gross = omega (
        int_laws,
        parts_eq (total-set p held_notional v st.orders found),
        parts_eq b.gross,
        parts_eq gross,
      );
    }
