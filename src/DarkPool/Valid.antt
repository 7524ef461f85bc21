-- ===== src/DarkPool/Valid.antt =====
-- What adding and cancelling orders do to the pool of luv_dark_pool.hpp.
use luv_flicker.Base.{
  ℕ, zero, suc, ◌+◌, ◌<◌, pos, ◌+ℤ◌, ◌<ℤ◌, leb_ℤ, int_laws, parts_eq, ==_iff, ◌≡◌, ◌≢◌, refl, ap,
  ◌∙◌, inl, inr, Bool, true, false, not, ◌&&◌, ◌||◌, Option, none, some, List, [], ◌∷◌,
  if◌then◌else◌, ◌==◌, leb, arith, Bool-cases, Option-cases, length, length-set, set,
  get_or-set_self, get_or-set_ne,
}
use luv_flicker.DarkPool.{
  DarkOrder, DarkPoolEngine, no_dark_order, max_resting_orders, decrement, put_order, add_order,
  deactivate, take_order, cancel_order,
}
use luv_flicker.DarkPool.Orders.{
  IsValid, order_at, one_if, active_count, active_count-le, active_count-set, open_qty, open_shares,
  open_qty-set, active-in_range,
}

-- What `put_order` does: it fills an entry that is not active, or there is none.
abbrev PutBy : List DarkOrder → DarkOrder → Option (List DarkOrder) → Type 0
PutBy os o none = active_count os ≡ length os
PutBy os o (some ys) =
    (i : ℕ) × ((order_at os i).active ≡ false) × (i < length os) × (ys ≡ set os i o)

put_order-PutBy : (os : List DarkOrder) (o : DarkOrder) → PutBy os o (put_order os o)
unfolding put_order
put_order-PutBy [] o = refl
put_order-PutBy (x ∷ os) o = elim (Bool-cases x.active) [
  | inr free ↦
      let here : put_order (x ∷ os) o ≡ some (o ∷ os) = ground (arith, free) in
      rw here (0, free, omega arith, refl)
  | inl taken ↦ elim (Option-cases (put_order os o)) [
    | inl full ↦
        let ih : PutBy os o none = rw full at (put_order-PutBy os o) in
        let still : put_order (x ∷ os) o ≡ none = rw (put_order, taken, full) refl in
        let one : one_if x.active ≡ 1 = rw taken refl in rw still (omega (arith, ih, one))
    | inr (ys, found) ↦
        let ih : PutBy os o (some ys) = rw found at (put_order-PutBy os o) in
        let later : put_order (x ∷ os) o ≡ some (x ∷ ys) = ground (arith, taken, found) in
        rw later (suc ih.0, ih.1, omega (arith, ih.2), ap (λ (zs : List DarkOrder). x ∷ zs) ih.3)
  ]
]

-- What `take_order` does: it withdraws an active order with the number, or there is none.
abbrev Taken : List DarkOrder → (order_id : ℕ) → Option (List DarkOrder) → Type 0
Taken os id none = (i : ℕ) → (order_at os i).active ≡ true → (order_at os i).order_id ≢ id
Taken os id (some ys) =
    (i : ℕ) × ((order_at os i).active ≡ true)
    × ((order_at os i).order_id ≡ id)
    × (ys ≡ set os i (deactivate (order_at os i)))

missed :
    (x : DarkOrder) (os : List DarkOrder) (id : ℕ)
    → (x.active && (x.order_id == id)) ≡ false
    → Taken os id none
    → Taken (x ∷ os) id none
missed x os id h k zero = λ live. ground (arith, h, live)
missed x os id h k (suc i) = k i

take_order-Taken : (os : List DarkOrder) (id : ℕ) → Taken os id (take_order os id)
unfolding take_order
take_order-Taken [] id = λ i h. absurd (ground (arith, h))
take_order-Taken (x ∷ os) id = elim (Bool-cases (x.active && (x.order_id == id))) [
  | inl here ↦ rw (take_order, here) (0, ground (arith, here), ground (arith, here), refl)
  | inr not_here ↦ elim (Option-cases (take_order os id)) [
    | inl missing ↦
        let ih : Taken os id none = rw missing at (take_order-Taken os id) in
        rw (take_order, not_here, missing) (missed x os id not_here ih)
    | inr (ys, found) ↦
        let ih : Taken os id (some ys) = rw found at (take_order-Taken os id) in
        rw (take_order, not_here, found)
          (suc ih.0, ih.1, ih.2, ap (λ (zs : List DarkOrder). x ∷ zs) ih.3)
  ]
]

stocked-set :
    (os : List DarkOrder) (i : ℕ) (v : DarkOrder)
    → i < length os
    → (v.active ≡ true → pos 0 <ℤ v.qty)
    → ((j : ℕ) → (order_at os j).active ≡ true → pos 0 <ℤ (order_at os j).qty)
    → (j : ℕ) → (order_at (set os i v) j).active ≡ true
    → pos 0 <ℤ (order_at (set os i v) j).qty
stocked-set os i v h new old j = elim (Bool-cases (i == j)) [
  | inl e ↦
      let same : i ≡ j = (==_iff i j).0 e in rw (← same, get_or-set_self os i v no_dark_order h) new
  | inr e ↦
      let apart : i ≢ j = ground arith in rw (get_or-set_ne os i j v no_dark_order apart) (old j)
]

-- The pool with an order in a free entry.
module _ (pool : DarkPoolEngine) (i : ℕ) (v : DarkOrder) (valid : IsValid pool)
    (inside : i < length pool.orders) (free : (order_at pool.orders i).active ≡ false)
    (live : v.active ≡ true) where
  placed : DarkPoolEngine
  placed = record { orders = set pool.orders i v; order_count = pool.order_count + 1 }

  placed-IsValid : pos 0 <ℤ v.qty → IsValid placed
  unfolding placed
  placed-IsValid h =
      let was : one_if (order_at pool.orders i).active ≡ 0 = rw free refl in
      let now : one_if v.active ≡ 1 = rw live refl in
      record {
        size = length-set pool.orders i v ∙ valid.size;
        counted = omega (arith, active_count-set pool.orders i v inside, was, now, valid.counted);
        stocked = stocked-set pool.orders i v inside (λ _. h) valid.stocked;
      }

  placed-open_qty : open_qty placed.orders ≡ open_qty pool.orders +ℤ v.qty
  unfolding placed
  placed-open_qty =
      let was : open_shares (order_at pool.orders i) ≡ pos 0 = rw free refl in
      let now : open_shares v ≡ v.qty = rw live refl in
      omega (int_laws, parts_eq (open_qty-set pool.orders i v inside), parts_eq was, parts_eq now)

-- What adding an order leaves.
pub record Adds (pool : DarkPoolEngine) (order : DarkOrder) (r : DarkPoolEngine × Bool)
    : Type 0 where
  pub valid : IsValid r.0
  pub succeeds : r.1 ≡ not (leb max_resting_orders pool.order_count || leb_ℤ order.qty (pos 0))
  pub quantity :
      open_qty r.0.orders
      ≡ (if r.1 then open_qty pool.orders +ℤ order.qty else open_qty pool.orders)

-- Adding an order to a valid pool leaves a valid pool on every branch; it succeeds just when there is
-- room and the quantity is positive, and the resting quantity grows by that of the order then, and stays otherwise.
pub add_order-Adds :
    (pool : DarkPoolEngine) (order : DarkOrder)
    → IsValid pool
    → Adds pool order (add_order pool order)
unfolding add_order placed
add_order-Adds pool order valid =
    let new : DarkOrder = record order { active = true } in
    elim (Bool-cases (leb max_resting_orders pool.order_count || leb_ℤ order.qty (pos 0))) [
      | inl refused ↦
          rw (add_order, refused)
            (record { valid = valid; succeeds = rw refused refl; quantity = refl })
      | inr taken ↦
          let some_qty : pos 0 <ℤ order.qty = ground arith in
          let room : pool.order_count < max_resting_orders = ground arith in
          elim (Option-cases (put_order pool.orders new)) [
            | inl full ↦
                let all : active_count pool.orders ≡ length pool.orders =
                  rw full at (put_order-PutBy pool.orders new) in
                absurd (omega (arith, all, room, valid.size, valid.counted))
            | inr (ys, found) ↦
                let put : PutBy pool.orders new (some ys) =
                  rw found at (put_order-PutBy pool.orders new) in
                let i = put.0 in
                rw (add_order, taken, found, put.3)
                  (record {
                    valid = placed-IsValid pool i new valid put.2 put.1 refl some_qty;
                    succeeds = rw taken refl;
                    quantity = placed-open_qty pool i new valid put.2 put.1 refl;
                  })
          ]
    ]

-- What cancelling leaves. A call that fails found no active order with the number.
pub record Cancels (pool : DarkPoolEngine) (order_id : ℕ) (r : DarkPoolEngine × Bool) : Type 0 where
  pub valid : IsValid r.0
  pub failed :
      r.1 ≡ false
      → (r.0 ≡ pool)
        × ((i : ℕ)
            → (order_at pool.orders i).active ≡ true
            → (order_at pool.orders i).order_id ≢ order_id)
  pub succeeded :
      r.1 ≡ true
      → (i : ℕ) × ((order_at pool.orders i).active ≡ true)
        × ((order_at pool.orders i).order_id ≡ order_id)
        × (r.0.orders ≡ set pool.orders i (deactivate (order_at pool.orders i)))
        × (open_qty r.0.orders +ℤ (order_at pool.orders i).qty ≡ open_qty pool.orders)

module _ (pool : DarkPoolEngine) (i : ℕ) (valid : IsValid pool)
    (live : (order_at pool.orders i).active ≡ true) where
  withdrawn : DarkPoolEngine
  withdrawn = record {
    orders = set pool.orders i (deactivate (order_at pool.orders i));
    order_count = decrement pool.order_count;
  }

  withdrawn-IsValid : IsValid withdrawn
  unfolding withdrawn deactivate
  withdrawn-IsValid =
      let o = deactivate (order_at pool.orders i) in
      let was : one_if (order_at pool.orders i).active ≡ 1 = rw live refl in
      let inside = active-in_range pool.orders i live in
      record {
        size = length-set pool.orders i o ∙ valid.size;
        counted = omega (
          arith,
          active_count-set pool.orders i o inside,
          was,
          valid.counted,
          valid.size,
          active_count-le pool.orders,
        );
        stocked =
            stocked-set pool.orders i o inside (λ h. absurd (ground (arith, h))) valid.stocked;
      }

  withdrawn-open_qty :
      open_qty withdrawn.orders +ℤ (order_at pool.orders i).qty ≡ open_qty pool.orders
  unfolding withdrawn deactivate
  withdrawn-open_qty =
      let o = deactivate (order_at pool.orders i) in
      let was : open_shares (order_at pool.orders i) ≡ (order_at pool.orders i).qty =
        rw live refl in
      omega (
        int_laws,
        parts_eq (open_qty-set pool.orders i o (active-in_range pool.orders i live)),
        parts_eq was,
      )

-- Cancelling an order of a valid pool leaves a valid pool. A call that fails leaves the pool as it
-- was, and no active order has the number; one that succeeds withdraws an active order with the number, and the resting
-- quantity falls by that of the order.
pub cancel_order-Cancels :
    (pool : DarkPoolEngine) (order_id : ℕ)
    → IsValid pool
    → Cancels pool order_id (cancel_order pool order_id)
unfolding cancel_order withdrawn
cancel_order-Cancels pool id valid = elim (Option-cases (take_order pool.orders id)) [
  | inl missing ↦
      let none_there : Taken pool.orders id none =
        rw missing at (take_order-Taken pool.orders id) in
      rw (cancel_order, missing)
        (record {
          valid = valid;
          failed = λ _. (refl, none_there);
          succeeded = λ h. absurd (ground (arith, h));
        })
  | inr (ys, found) ↦
      let taken : Taken pool.orders id (some ys) = rw found at (take_order-Taken pool.orders id) in
      let i = taken.0 in
      rw (cancel_order, found, taken.3)
        (record {
          valid = withdrawn-IsValid pool i valid taken.1;
          failed = λ h. absurd (ground (arith, h));
          succeeded = λ _. (i, taken.1, taken.2, refl, withdrawn-open_qty pool i valid taken.1);
        })
]
