-- ===== src/Mbo/Count.antt =====
-- The market-by-order book keeps its count and its ids: every operation keeps the count equal to the
-- number of active orders, and no two active orders with one id.
use luv_flicker.Base.{
  ℕ, ◌+◌, ◌<◌, ◌^◌, ◌≡◌, ◌⊎◌, inl, inr, ℤ, true, false, some, List, [], ◌∷◌, if◌then◌else◌, arith,
  refl, Option-cases, Bool-cases, leb, leb_ℤ, pos, ◌||◌,
}
use luv_flicker.Mbo.{
  MboOrder, MboBook, Verdict, keep, drop, holds, taken, fill_free, add_order, settle, at_order,
  modified, modify_order, cancel_order, executed, execute_order, max_orders,
}

unfoldable pub active_count : List MboOrder → ℕ
active_count [] = 0
active_count (o ∷ os) = (if o.active then 1 else 0) + active_count os

-- No active order behind another has its id.
abbrev pub Distinct : List MboOrder → Type 0
Distinct [] = Unit {0}
Distinct (o ∷ os) = (o.active ≡ true → taken os o.order_id ≡ false) × Distinct os

pub record IsValid (b : MboBook) : Type 0 where
  pub small : b.order_count < 2 ^ 64
  pub counted : b.order_count ≡ active_count b.orders
  pub distinct : Distinct b.orders

-- An action that an operation takes keeps the id and the activity of an order that it keeps.
abbrev Keeps : (MboOrder → Verdict) → Type 0
Keeps act =
    (o o' : MboOrder) → act o ≡ keep o' → (o'.order_id ≡ o.order_id) × (o'.active ≡ o.active)

taken-fill_free :
    (os : List MboOrder) (new : MboOrder) (q : ℕ) (os' : List MboOrder)
    → fill_free os new ≡ some os'
    → taken os q ≡ false
    → (holds new q ≡ false)
    → taken os' q ≡ false
unfolding fill_free taken
taken-fill_free [] new q os' e t h = absurd (ground arith)
taken-fill_free (o ∷ os) new q os' e t h = elim (Option-cases (fill_free os new)) [
  | inl full ↦ ground arith
  | inr (os'', room) ↦ ground (arith, taken-fill_free os new q os'' room)
]

active_count-fill_free :
    (os : List MboOrder) (new : MboOrder) (os' : List MboOrder)
    → new.active ≡ true
    → fill_free os new ≡ some os'
    → active_count os' ≡ active_count os + 1
unfolding fill_free active_count
active_count-fill_free [] new os' a e = absurd (ground arith)
active_count-fill_free (o ∷ os) new os' a e = elim (Option-cases (fill_free os new)) [
  | inl full ↦ ground arith
  | inr (os'', room) ↦ ground (arith, active_count-fill_free os new os'' a room)
]

Distinct-fill_free :
    (os : List MboOrder) (new : MboOrder) (os' : List MboOrder)
    → taken os new.order_id ≡ false
    → Distinct os
    → fill_free os new ≡ some os'
    → Distinct os'
unfolding fill_free taken
Distinct-fill_free [] new os' t d e = absurd (ground arith)
Distinct-fill_free (o ∷ os) new os' t d e = elim (Bool-cases o.active) [
  | inr free ↦ let same : os' ≡ new ∷ os = ground arith in rw same (λ a. ground arith, d.1)
  | inl held ↦ elim (Option-cases (fill_free os new)) [
    | inl full ↦ absurd (ground arith)
    | inr (os'', room) ↦
        let same : os' ≡ o ∷ os'' = ground arith in
        rw same (
          λ a. taken-fill_free os new o.order_id os'' room (d.0 a) (ground arith),
          Distinct-fill_free os new os'' (ground arith) d.1 room,
        )
  ]
]

-- `add_order` keeps the book valid.
add_order-IsValid :
    (b : MboBook) (order_id symbol side : ℕ) (price qty : ℤ) (ts : ℕ)
    → IsValid b
    → IsValid (add_order b order_id symbol side price qty ts).0
unfolding add_order
add_order-IsValid b order_id symbol side price qty ts v =
    elim (Bool-cases (leb max_orders b.order_count || leb_ℤ qty (pos 0))) [
      | inl refused ↦ rw refused v
      | inr room ↦ elim (Bool-cases (taken b.orders order_id)) [
        | inl known ↦ rw (room, known) v
        | inr new ↦ elim (Option-cases (fill_free b.orders order)) [
          | inl full ↦ rw (room, new, full) v
          | inr (os, filled) ↦
              rw (room, new, filled)
                (record {
                  small = ground arith;
                  counted =
                      ground
                        (arith, active_count-fill_free b.orders order os refl filled, v.counted);
                  distinct = Distinct-fill_free b.orders order os new v.distinct filled;
                })
        ]
      ]
    ]
  where
    order : MboOrder
    order = record {
      order_id = order_id;
      symbol_idx = symbol;
      side = side;
      price = price;
      qty = qty;
      priority_ts = ts;
      active = true;
    }

Verdict-cases : (v : Verdict) → (v ≡ drop) ⊎ ((o : MboOrder) × (v ≡ keep o))
Verdict-cases drop = inl refl
Verdict-cases (keep o) = inr (o, refl)

taken-at_order :
    (act : MboOrder → Verdict) (os : List MboOrder) (n order_id q : ℕ)
    → Keeps act
    → taken os q ≡ false
    → taken (at_order act os n order_id).0.orders q ≡ false
unfolding at_order settle taken
taken-at_order act [] n order_id q k t = refl
taken-at_order act (o ∷ os) n order_id q k t = elim (Verdict-cases (act o)) [
  | inl gone ↦ ground (arith, taken-at_order act os n order_id q k)
  | inr (o', kept) ↦ ground (arith, k o o' kept, taken-at_order act os n order_id q k)
]

Distinct-at_order :
    (act : MboOrder → Verdict) (os : List MboOrder) (n order_id : ℕ)
    → Keeps act
    → Distinct os
    → Distinct (at_order act os n order_id).0.orders
unfolding at_order settle
Distinct-at_order act [] n order_id k d = d
Distinct-at_order act (o ∷ os) n order_id k d = elim (Bool-cases (holds o order_id)) [
  | inr other ↦ rw other (
    λ a. taken-at_order act os n order_id o.order_id k (d.0 a),
    Distinct-at_order act os n order_id k d.1,
  )
  | inl this ↦ elim (Verdict-cases (act o)) [
    | inl gone ↦ rw (this, gone, settle) (λ a. absurd (ground arith), d.1)
    | inr (o', kept) ↦ rw (this, kept, settle) (λ a. ground (arith, k o o' kept, d.0), d.1)
  ]
]

-- The count after: one less exactly where an active order was dropped.
active_count-at_order :
    (act : MboOrder → Verdict) (os : List MboOrder) (n k order_id : ℕ)
    → Keeps act
    → n ≡ k + active_count os
    → n < 2 ^ 64
    → let b = (at_order act os n order_id).0 in
      (b.order_count ≡ k + active_count b.orders) × (b.order_count < 2 ^ 64)
unfolding at_order settle active_count
active_count-at_order act [] n k order_id h e s = ground arith
active_count-at_order act (o ∷ os) n k order_id h e s = elim (Verdict-cases (act o)) [
  | inl gone ↦
      ground (arith, active_count-at_order act os n (k + (if o.active then 1 else 0)) order_id h)
  | inr (o', kept) ↦ ground (
    arith,
    h o o' kept,
    active_count-at_order act os n (k + (if o.active then 1 else 0)) order_id h,
  )
]

at_order-IsValid :
    (act : MboOrder → Verdict) (b : MboBook) (order_id : ℕ)
    → Keeps act
    → IsValid b
    → IsValid (at_order act b.orders b.order_count order_id).0
at_order-IsValid act b order_id h v =
    let (counted, small) =
      active_count-at_order act b.orders b.order_count 0 order_id h (omega (arith, v.counted))
        v.small in
    record {
      small = small;
      counted = omega (arith, counted);
      distinct = Distinct-at_order act b.orders b.order_count order_id h v.distinct;
    }

modified-Keeps : (qty price : ℤ) (ts : ℕ) → Keeps (modified qty price ts)
unfolding modified
modified-Keeps qty price ts o o' e = ground arith

executed-Keeps : (qty : ℤ) → Keeps (executed qty)
unfolding executed
executed-Keeps qty o o' e = ground arith

cancelled-Keeps : Keeps (λ o. drop)
cancelled-Keeps o o' e = absurd (ground arith)

-- The calls of a client.
pub data Call : Type 0 where
  add : ℕ → ℕ → ℕ → ℤ → ℤ → ℕ → Call
  modify : ℕ → ℤ → ℤ → ℕ → Call
  cancel : ℕ → Call
  execute : ℕ → ℤ → Call

abbrev pub step : MboBook → Call → MboBook
step b (add order_id symbol side price qty ts) = (add_order b order_id symbol side price qty ts).0
step b (modify order_id qty price ts) = (modify_order b order_id qty price ts).0
step b (cancel order_id) = (cancel_order b order_id).0
step b (execute order_id qty) = (execute_order b order_id qty).0

-- Every call on a valid book, refused or not, leaves the count equal to the number of active orders
-- and no two active orders with one id.
pub step-IsValid : (b : MboBook) (c : Call) → IsValid b → IsValid (step b c)
unfolding modify_order cancel_order execute_order
step-IsValid b (add order_id symbol side price qty ts) v =
    add_order-IsValid b order_id symbol side price qty ts v
step-IsValid b (modify order_id qty price ts) v =
    at_order-IsValid (modified qty price ts) b order_id (modified-Keeps qty price ts) v
step-IsValid b (cancel order_id) v = at_order-IsValid (λ o. drop) b order_id cancelled-Keeps v
step-IsValid b (execute order_id qty) v =
    at_order-IsValid (executed qty) b order_id (executed-Keeps qty) v
