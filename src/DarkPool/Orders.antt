-- ===== src/DarkPool/Orders.antt =====
-- The resting orders of luv_dark_pool.hpp: their number, their quantity, and what a fill does to both.
use luv_flicker.Base.{
  ℕ, zero, suc, ◌+◌, ◌<◌, ◌≤◌, ℤ, pos, ◌+ℤ◌, ◌-ℤ◌, ◌<ℤ◌, ◌≤ℤ◌, eqb_ℤ, eqb_ℤ_iff, -ℤ_parts, ==_iff,
  int_laws, parts_eq, ◌≡◌, ◌≢◌, refl, ◌∙◌, inl, inr, Bool, true, false, List, [], ◌∷◌,
  if◌then◌else◌, ◌==◌, arith, Bool-cases, length, length-set, get_or, set, get_or-set_self,
  get_or-set_ne,
}
use luv_flicker.DarkPool.{
  DarkOrder, DarkPoolEngine, no_dark_order, max_resting_orders, min_ℤ, reduce_maker, apply_fill,
}

abbrev pub one_if : Bool → ℕ
one_if true = 1
one_if false = 0

abbrev pub active_count : List DarkOrder → ℕ
active_count [] = 0
active_count (o ∷ os) = one_if o.active + active_count os

-- What an order has to trade: nothing when it is not active.
abbrev pub open_shares : DarkOrder → ℤ
open_shares o = if o.active then o.qty else pos 0

abbrev pub open_qty : List DarkOrder → ℤ
open_qty [] = pos 0
open_qty (o ∷ os) = open_shares o +ℤ open_qty os

-- The order at an index; out of range it is an order that is not active.
abbrev pub order_at : List DarkOrder → ℕ → DarkOrder
order_at os i = get_or os i no_dark_order

-- The count is that of the active orders, which all have something to trade.
pub record IsValid (pool : DarkPoolEngine) : Type 0 where
  pub size : length pool.orders ≡ max_resting_orders
  pub counted : pool.order_count ≡ active_count pool.orders
  pub stocked :
      (i : ℕ) → (order_at pool.orders i).active ≡ true → pos 0 <ℤ (order_at pool.orders i).qty

pub active-in_range : (os : List DarkOrder) (i : ℕ) → (order_at os i).active ≡ true → i < length os
active-in_range [] i h = absurd (ground (arith, h))
active-in_range (o ∷ os) zero h = omega arith
active-in_range (o ∷ os) (suc i) h = omega (arith, active-in_range os i h)

pub active_count-le : (os : List DarkOrder) → active_count os ≤ length os
active_count-le [] = omega arith
active_count-le (o ∷ os) = ground (arith, active_count-le os)

pub active_count-set :
    (os : List DarkOrder) (i : ℕ) (v : DarkOrder)
    → i < length os
    → active_count (set os i v) + one_if (order_at os i).active ≡ active_count os + one_if v.active
active_count-set [] i v h = absurd (omega arith)
active_count-set (o ∷ os) zero v h = omega arith
active_count-set (o ∷ os) (suc i) v h = omega (arith, active_count-set os i v (omega arith))

pub open_qty-set :
    (os : List DarkOrder) (i : ℕ) (v : DarkOrder)
    → i < length os
    → open_qty (set os i v) +ℤ open_shares (order_at os i) ≡ open_qty os +ℤ open_shares v
open_qty-set [] i v h = absurd (omega arith)
open_qty-set (o ∷ os) zero v h = omega int_laws
open_qty-set (o ∷ os) (suc i) v h = omega (int_laws, parts_eq (open_qty-set os i v (omega arith)))

pub min_ℤ_bounds :
    (a b : ℤ) → pos 0 <ℤ a → pos 0 <ℤ b → (pos 0 <ℤ min_ℤ a b) × (min_ℤ a b ≤ℤ a) × (min_ℤ a b ≤ℤ b)
min_ℤ_bounds a b h k = ground arith

module _ (o : DarkOrder) (q : ℤ) where
  open_shares-active : o.active ≡ true → open_shares o ≡ o.qty
  open_shares-active h = rw h refl

  reduce_maker-open_shares : o.active ≡ true → open_shares (reduce_maker o q) +ℤ q ≡ o.qty
  unfolding reduce_maker
  reduce_maker-open_shares h = elim (Bool-cases (eqb_ℤ (o.qty -ℤ q) (pos 0))) [
    | inl e ↦
        let none_left : o.qty -ℤ q ≡ pos 0 = (eqb_ℤ_iff (o.qty -ℤ q) (pos 0)).0 e in
        rw e (omega (int_laws, parts_eq none_left))
    | inr e ↦ rw (e, h) (omega int_laws)
  ]

  reduce_maker-active :
      o.active ≡ true
      → one_if (reduce_maker o q).active ≡ (if eqb_ℤ (o.qty -ℤ q) (pos 0) then 0 else 1)
  unfolding reduce_maker
  reduce_maker-active h = elim (Bool-cases (eqb_ℤ (o.qty -ℤ q) (pos 0))) [
    | inl e ↦ rw e refl
    | inr e ↦ rw (e, h) refl
  ]

  reduce_maker-stocked :
      q ≤ℤ o.qty → (reduce_maker o q).active ≡ true → pos 0 <ℤ (reduce_maker o q).qty
  unfolding reduce_maker
  reduce_maker-stocked = elim (Bool-cases (eqb_ℤ (o.qty -ℤ q) (pos 0))) [
    | inl e ↦ rw e (λ k h. absurd (ground (arith, h)))
    | inr e ↦ rw e (λ k h. ground (arith, -ℤ_parts o.qty q))
  ]

module _ (pool : DarkPoolEngine) (i : ℕ) (q : ℤ) where
  pub apply_fill_other :
      (j : ℕ) → i ≢ j → order_at (apply_fill pool i q).orders j ≡ order_at pool.orders j
  unfolding apply_fill
  apply_fill_other j h = get_or-set_ne pool.orders i j _ no_dark_order h

  module _ (live : (order_at pool.orders i).active ≡ true) where
    pub apply_fill-open_qty : open_qty (apply_fill pool i q).orders +ℤ q ≡ open_qty pool.orders
    unfolding apply_fill
    apply_fill-open_qty =
        let o = order_at pool.orders i in
        omega (
          int_laws,
          parts_eq
              (open_qty-set pool.orders i (reduce_maker o q) (active-in_range pool.orders i live)),
          parts_eq (open_shares-active o q live),
          parts_eq (reduce_maker-open_shares o q live),
        )

    module _ (valid : IsValid pool) (enough : q ≤ℤ (order_at pool.orders i).qty) where
      apply_fill-counted :
          (apply_fill pool i q).order_count ≡ active_count (apply_fill pool i q).orders
      unfolding apply_fill
      apply_fill-counted =
          let o = order_at pool.orders i in
          let moved =
            active_count-set pool.orders i (reduce_maker o q)
              (active-in_range pool.orders i live) in
          let few : active_count pool.orders ≤ 1024 =
            omega (arith, active_count-le pool.orders, valid.size) in
          let was : one_if o.active ≡ 1 = rw live refl in
          elim (Bool-cases (eqb_ℤ (o.qty -ℤ q) (pos 0))) [
            | inl e ↦
                let now : one_if (reduce_maker o q).active ≡ 0 =
                  reduce_maker-active o q live ∙ rw e refl in
                rw e (omega (arith, moved, few, was, now, valid.counted))
            | inr e ↦
                let now : one_if (reduce_maker o q).active ≡ 1 =
                  reduce_maker-active o q live ∙ rw e refl in
                rw e (omega (arith, moved, few, was, now, valid.counted))
          ]

      apply_fill_self :
          order_at (apply_fill pool i q).orders i ≡ reduce_maker (order_at pool.orders i) q
      unfolding apply_fill
      apply_fill_self =
          get_or-set_self pool.orders i _ no_dark_order (active-in_range pool.orders i live)

      apply_fill-stocked :
          (j : ℕ)
          → (order_at (apply_fill pool i q).orders j).active ≡ true
          → pos 0 <ℤ (order_at (apply_fill pool i q).orders j).qty
      apply_fill-stocked j = elim (Bool-cases (i == j)) [
        | inl e ↦
            let same : i ≡ j = (==_iff i j).0 e in
            rw (← same, apply_fill_self) (reduce_maker-stocked (order_at pool.orders i) q enough)
        | inr e ↦
            let apart : i ≢ j = ground arith in rw (apply_fill_other j apart) (valid.stocked j)
      ]

      pub apply_fill-IsValid : IsValid (apply_fill pool i q)
      unfolding apply_fill
      apply_fill-IsValid = record {
        size = length-set pool.orders i _ ∙ valid.size;
        counted = apply_fill-counted;
        stocked = apply_fill-stocked;
      }
