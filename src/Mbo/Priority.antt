-- ===== src/Mbo/Priority.antt =====
-- Time priority in luv_mbo.hpp: what `modify_order` does to the quantity ahead of an order.
use luv_flicker.Base.{
  ℕ, ◌≡◌, ℤ, pos, ◌≤ℤ◌, ◌+ℤ◌, eqb_ℤ_iff, some, List, [], ◌∷◌, if◌then◌else◌, arith, refl,
  Bool-cases, inl, inr, sym, ◌∙◌,
}
use luv_flicker.Mbo.{
  MboOrder, MboBook, holds, settle, at_order, modified, modify_order, find_order, rests_ahead,
  sum_ahead, compute_queue_ahead,
}

-- Who waits ahead of an order does not hang on that order's own quantity.
sum_ahead-qty :
    (o : MboOrder) (qty : ℤ) (os : List MboOrder) (total : ℤ)
    → sum_ahead (record o { qty = qty }) os total ≡ sum_ahead o os total
unfolding sum_ahead rests_ahead
sum_ahead-qty o qty [] total = refl
sum_ahead-qty o qty (p ∷ os) total =
    sum_ahead-qty o qty os (if rests_ahead o p then total +ℤ p.qty else total)

-- A change to the order itself does not change who waits ahead of it.
sum_ahead-at_order :
    (o : MboOrder) (qty price : ℤ) (ts n : ℕ) (os : List MboOrder) (total : ℤ)
    → sum_ahead o (at_order (modified qty price ts) os n o.order_id).0.orders total
      ≡ sum_ahead o os total
unfolding sum_ahead at_order rests_ahead settle modified
sum_ahead-at_order o qty price ts n [] total = refl
sum_ahead-at_order o qty price ts n (p ∷ os) total = elim (Bool-cases (holds p o.order_id)) [
  | inl h ↦ ground arith
  | inr h ↦
      rw h
        (sum_ahead-at_order o qty price ts n os (if rests_ahead o p then total +ℤ p.qty else total))
]

find_order-at_order :
    (o : MboOrder) (qty : ℤ) (id ts n : ℕ) (os : List MboOrder)
    → find_order os id ≡ some o
    → pos 1 ≤ℤ qty
    → qty ≤ℤ o.qty
    → find_order (at_order (modified qty o.price ts) os n id).0.orders id
      ≡ some (record o { qty = qty })
unfolding find_order at_order modified settle
find_order-at_order o qty id ts n [] f a b = absurd (ground arith)
find_order-at_order o qty id ts n (p ∷ os) f a b = elim (Bool-cases (holds p id)) [
  | inl h ↦ ground (arith, (eqb_ℤ_iff o.price o.price).1 refl)
  | inr h ↦ rw h (ground (arith, find_order-at_order o qty id ts n os))
]

order_id-find_order :
    (o : MboOrder) (id : ℕ) (os : List MboOrder) → find_order os id ≡ some o → o.order_id ≡ id
unfolding find_order
order_id-find_order o id [] f = absurd (ground arith)
order_id-find_order o id (p ∷ os) f = elim (Bool-cases (holds p id)) [
  | inl h ↦ ground arith
  | inr h ↦ ground (arith, order_id-find_order o id os)
]

compute_queue_ahead-found :
    (b : MboBook) (o : MboOrder) (id : ℕ)
    → find_order b.orders id ≡ some o
    → compute_queue_ahead b id ≡ sum_ahead o b.orders (pos 0)
unfolding compute_queue_ahead sum_ahead
compute_queue_ahead-found b o id f = rw (f, compute_queue_ahead) refl

-- An order that is modified at its price, to a positive quantity that is not larger, keeps its
-- place: the quantity ahead of it is what it was, whatever the new time stamp.
pub compute_queue_ahead-modify_order :
    (b : MboBook) (o : MboOrder) (id : ℕ) (qty : ℤ) (ts : ℕ)
    → find_order b.orders id ≡ some o
    → pos 1 ≤ℤ qty
    → qty ≤ℤ o.qty
    → compute_queue_ahead (modify_order b id qty o.price ts).0 id ≡ compute_queue_ahead b id
unfolding modify_order
compute_queue_ahead-modify_order b o id qty ts f a c =
    let same : id ≡ o.order_id = sym (order_id-find_order o id b.orders f) in
    let b' : MboBook = (modify_order b id qty o.price ts).0 in
    compute_queue_ahead-found b' (record o { qty = qty }) id
      (find_order-at_order o qty id ts b.order_count b.orders f a c)
    ∙ sum_ahead-qty o qty b'.orders (pos 0)
    ∙ (rw same (sum_ahead-at_order o qty o.price ts b.order_count b.orders (pos 0)))
    ∙ sym (compute_queue_ahead-found b o id f)
