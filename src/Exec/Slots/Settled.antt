-- ===== src/Exec/Slots/Settled.antt =====
-- The books of a symbol in luv_execution.hpp: the position and the exposure of the risk state are
-- those of the fills and those of the open orders together.
use luv_flicker.Base.{
  ℕ, suc, ◌+◌, ◌%◌, ◌≤◌, ◌≡◌, ℤ, pos, ◌≤ℤ◌, ◌+ℤ◌, ◌-ℤ◌, ◌*ℤ◌, eqb_ℤ, ltb_ℤ, Bool, true, false, ◌&&◌,
  ◌||◌, List, [], ◌∷◌, none, some, if◌then◌else◌, ◌==◌, leb, set, arith, int_laws, parts_eq,
  *ℤ_parts, *ℤ_sub, eqb_ℤ_iff, refl, subst, Option-cases, Bool-cases, inl, inr,
}
use luv_flicker.Arena.Orders.{ActiveOrder, SymbolExecState, no_order, max_active_orders}
use luv_flicker.Exec.Types.{OrderIntent, signed_qty_delta}
use luv_flicker.Exec.Slots.{
  is_open, search_orders, is_free, same_id, has_open_id, live_order, count_down, close_slot,
  reserve_order_slot, release_order_slot, filled_order, fill_slot, replace_slot,
}
use luv_flicker.Exec.Slots.Held.{
  held_count, held_qty, held_notional, open_count, Books, search_orders-holds, open_count-set,
  held_free, held_open, is_free-closed, signed_qty_delta-add, Books-set,
}

held_live :
    (intent : OrderIntent)
    → (held_count (live_order intent) ≡ 1)
      × (held_qty (live_order intent) ≡ signed_qty_delta intent.side intent.qty)
      × (held_notional (live_order intent) ≡ intent.price *ℤ intent.qty)
unfolding live_order held_count held_qty held_notional is_open signed_qty_delta
held_live intent = (refl, ground arith, refl)

-- Reserving a slot leaves the books of the fills as they are, whether it succeeds or not.
pub reserve_order_slot-Books :
    (st : SymbolExecState) (intent : OrderIntent) {position exposure : ℤ}
    → Books st position exposure
    → Books (reserve_order_slot st intent).0 position exposure
unfolding reserve_order_slot
reserve_order_slot-Books st intent {position} {exposure} b =
    elim (Bool-cases (leb max_active_orders st.risk.order_count)) [
      | inl full ↦
          rw full (record { slots = b.slots; count = b.count; net = b.net; gross = b.gross })
      | inr room ↦ elim (Option-cases (search_orders is_free st.orders)) [
        | inl none_free ↦ rw (room, none_free) b
        | inr ((i, o), found) ↦
            let (c, q, n) =
              held_free o (is_free-closed o (search_orders-holds is_free st.orders found)) in
            let (c', q', n') = held_live intent in
            rw (room, found)
              (Books-set is_free st _ (live_order intent) found b (rw (c, c') (omega arith))
                (rw (q, q') (omega int_laws)) (rw (n, n') (omega int_laws)))
      ]
    ]

held_no_order :
    (held_count no_order ≡ 0) × (held_qty no_order ≡ pos 0) × (held_notional no_order ≡ pos 0)
unfolding held_count held_qty held_notional is_open
held_no_order = (refl, refl, refl)

-- An order of the books is counted.
open_count-found :
    (p : ActiveOrder → Bool) (xs : List ActiveOrder) {i : ℕ} {o : ActiveOrder}
    → search_orders p xs ≡ some (i, o)
    → held_count o ≤ open_count xs
open_count-found p xs found = omega (arith, open_count-set p no_order xs found, held_no_order.0)

count_down_lem : (n : ℕ) → 1 ≤ n → count_down n + 1 ≡ n
unfolding count_down
count_down_lem n h = ground arith

-- An open order that leaves its slot leaves the books of the fills as they are.
pub close_slot-Books :
    (p : ActiveOrder → Bool) (st : SymbolExecState) {i : ℕ} {o : ActiveOrder}
    {position exposure : ℤ}
    → search_orders p st.orders ≡ some (i, o)
    → is_open o ≡ true
    → Books st position exposure
    → Books (close_slot st i o.side o.price o.qty) position exposure
unfolding close_slot
close_slot-Books p st {i} {o} found live b =
    let (c, q, n) = held_open o live in
    let (c', q', n') = held_no_order in
    let some_open : 1 ≤ st.risk.order_count =
      omega (arith, open_count-found p st.orders found, c, b.count) in
    Books-set p st _ no_order found b
      (rw (c, c') (omega (arith, count_down_lem st.risk.order_count some_open)))
      (rw (q, q') (omega int_laws)) (rw (n, n') (omega int_laws))

is_open-same : (o o' : ActiveOrder) → o'.state ≡ o.state → is_open o ≡ true → is_open o' ≡ true
unfolding is_open
is_open-same o o' same live = rw same live

-- A new quantity and price leave the books of the fills as they are.
pub replace_slot-Books :
    (p : ActiveOrder → Bool) (st : SymbolExecState) {i : ℕ} {o : ActiveOrder} (qty price : ℤ)
    {position exposure : ℤ}
    → search_orders p st.orders ≡ some (i, o)
    → is_open o ≡ true
    → Books st position exposure
    → Books (replace_slot st i o qty price) position exposure
unfolding replace_slot
replace_slot-Books p st {i} {o} qty price found live b =
    let changed : ActiveOrder = record o { qty = qty; price = price } in
    let same : is_open changed ≡ true = is_open-same o changed refl live in
    let (c, q, n) = held_open o live in
    let (c', q', n') = held_open changed same in
    Books-set p st _ changed found b (rw (c, c') refl) (rw (q, q') (omega int_laws))
      (rw (n, n') (omega int_laws))

signed_zero : (side : ℕ) → signed_qty_delta side (pos 0) ≡ pos 0
unfolding signed_qty_delta
signed_zero side = elim (Bool-cases (side % 2 == 0)) [
  | inl even ↦ rw even refl
  | inr odd ↦ rw odd (omega int_laws)
]

filled-done :
    (o : ActiveOrder) (filled : ℤ) (terminal : Bool)
    → (terminal || eqb_ℤ (o.qty -ℤ filled) (pos 0)) ≡ true
    → is_open (filled_order o filled terminal) ≡ false
unfolding filled_order is_open
filled-done o filled terminal h = rw h refl

filled-open :
    (o : ActiveOrder) (filled : ℤ) (terminal : Bool)
    → (terminal || eqb_ℤ (o.qty -ℤ filled) (pos 0)) ≡ false
    → is_open (filled_order o filled terminal) ≡ true
unfolding filled_order is_open
filled-open o filled terminal h = rw h refl

left_over :
    (t : Bool) (net value : ℤ)
    → (if t && true then net -ℤ value else net) +ℤ value
      ≡ net +ℤ (if t || false then pos 0 else value)
left_over true net value = omega int_laws
left_over false net value = refl

none_left_over :
    (t : Bool) (net : ℤ)
    → (if t && false then net -ℤ pos 0 else net) +ℤ pos 0
      ≡ net +ℤ (if t || true then pos 0 else pos 0)
none_left_over true net = refl
none_left_over false net = refl

-- What a fill gives back, where nothing is worth nothing.
gives_back :
    (terminal : Bool) (left value net : ℤ)
    → pos 0 ≤ℤ left
    → (left ≡ pos 0 → value ≡ pos 0)
    → (if terminal && ltb_ℤ (pos 0) left then net -ℤ value else net) +ℤ value
      ≡ net +ℤ (if terminal || eqb_ℤ left (pos 0) then pos 0 else value)
gives_back terminal left value net h worth = elim (Bool-cases (eqb_ℤ left (pos 0))) [
  | inl none_left ↦
      let nothing = worth ((eqb_ℤ_iff left (pos 0)).0 none_left) in
      let here = (eqb_ℤ_iff left (pos 0)).0 none_left in
      rw (nothing, here) (none_left_over terminal net)
  | inr some_left ↦
      let more : ltb_ℤ (pos 0) left ≡ true = ground arith in
      rw (some_left, more) (left_over terminal net value)
]

held_filled :
    (o : ActiveOrder) (filled : ℤ) (terminal : Bool)
    → let left = o.qty -ℤ filled in
      let done = terminal || eqb_ℤ left (pos 0) in
      (held_count (filled_order o filled terminal) ≡ (if done then 0 else 1))
      × (held_qty (filled_order o filled terminal)
          ≡ (if done then pos 0 else signed_qty_delta o.side left))
      × (held_notional (filled_order o filled terminal) ≡ (if done then pos 0 else o.price *ℤ left))
unfolding held_count held_qty held_notional is_open filled_order
held_filled o filled terminal = elim (Bool-cases (terminal || eqb_ℤ (o.qty -ℤ filled) (pos 0))) [
  | inl done ↦ rw done (refl, refl, refl)
  | inr partial ↦ rw partial (refl, refl, refl)
]

*ℤ_zero : (a : ℤ) → a *ℤ pos 0 ≡ pos 0
*ℤ_zero a = omega (int_laws, *ℤ_parts a (pos 0))

count_filled :
    (terminal : Bool) (left : ℤ) {n : ℕ}
    → 1 ≤ n
    → (if terminal || eqb_ℤ left (pos 0) then count_down n else n) + 1
      ≡ n + (if terminal || eqb_ℤ left (pos 0) then 0 else 1)
unfolding count_down
count_filled terminal left h = ground arith

-- A fill of at most what is open moves the books of the fills by its signed quantity and by its
-- worth at the price of the order.
pub fill_slot-Books :
    (p : ActiveOrder → Bool) (st : SymbolExecState) {i : ℕ} {o : ActiveOrder} (filled : ℤ)
    (terminal : Bool) {position exposure : ℤ}
    → search_orders p st.orders ≡ some (i, o)
    → is_open o ≡ true
    → filled ≤ℤ o.qty
    → Books st position exposure
    → Books
        (fill_slot st i o filled terminal)
        (position +ℤ signed_qty_delta o.side filled)
        (exposure +ℤ o.price *ℤ filled)
unfolding fill_slot
fill_slot-Books p st {i} {o} filled terminal found live low b =
    let left = o.qty -ℤ filled in
    let (c, q, n) = held_open o live in
    let (c', q', n') = held_filled o filled terminal in
    let some_open : 1 ≤ st.risk.order_count =
      omega (arith, open_count-found p st.orders found, c, b.count) in
    let some_left : pos 0 ≤ℤ left = omega int_laws in
    let net =
      gives_back terminal left (signed_qty_delta o.side left) st.risk.net_position some_left
        (λ e. rw e (signed_zero o.side)) in
    let gross =
      gives_back terminal left (o.price *ℤ left) st.risk.gross_exposure some_left
        (λ e. rw e (*ℤ_zero o.price)) in
    Books-set p st _ (filled_order o filled terminal) found b
      (rw (c, c') (count_filled terminal left some_open))
      (rw (q, q')
        (omega (int_laws, parts_eq net, parts_eq (signed_qty_delta-add o.side o.qty filled))))
      (rw (n, n') (omega (int_laws, parts_eq gross, parts_eq (*ℤ_sub o.price o.qty filled))))

-- The slot that a new order takes is the one that its id gives, if no open order has the id.
search_orders-reserved :
    (id : ℕ) (v : ActiveOrder) (xs : List ActiveOrder) {i : ℕ} {o : ActiveOrder}
    → v.order_id ≡ id
    → search_orders (has_open_id id) xs ≡ none
    → search_orders is_free xs ≡ some (i, o)
    → search_orders (same_id id) (set xs i v) ≡ some (i, v)
unfolding search_orders is_free has_open_id same_id
search_orders-reserved id v [] same fresh free = ground arith
search_orders-reserved id v (x ∷ xs) {i} {o} same fresh free = elim (Bool-cases (is_free x)) [
  | inl here ↦ let at : i ≡ 0 = ground arith in rw at (ground arith)
  | inr there ↦ elim (Option-cases (search_orders is_free xs)) [
    | inl none_free ↦ absurd (ground arith)
    | inr ((j, y), found) ↦
        let at : i ≡ suc j = ground arith in
        let other : (x.order_id == id) ≡ false = ground arith in
        let later : search_orders (has_open_id id) xs ≡ none = ground arith in
        rw (at, other) (rw (search_orders-reserved id v xs {i = j} {o = y} same later found) refl)
  ]
]

close_slot-side :
    (st : SymbolExecState) (i side : ℕ) (price qty : ℤ)
    → close_slot st i (side % 2) price qty ≡ close_slot st i side price qty
unfolding close_slot signed_qty_delta
close_slot-side st i side price qty =
    let same : side % 2 % 2 ≡ side % 2 = omega arith in rw same refl

live_order-open : (intent : OrderIntent) → is_open (live_order intent) ≡ true
unfolding live_order is_open
live_order-open intent = refl

-- A slot that was reserved is a free one, and holds the order then.
pub reserve_order_slot-placed :
    (st : SymbolExecState) (intent : OrderIntent)
    → (reserve_order_slot st intent).1 ≡ true
    → (i : ℕ) × (o : ActiveOrder) × (search_orders is_free st.orders ≡ some (i, o))
      × ((reserve_order_slot st intent).0.orders ≡ set st.orders i (live_order intent))
unfolding reserve_order_slot
reserve_order_slot-placed st intent done =
    elim (Bool-cases (leb max_active_orders st.risk.order_count)) [
      | inl full ↦ absurd (ground arith)
      | inr room ↦ elim (Option-cases (search_orders is_free st.orders)) [
        | inl none_free ↦ absurd (ground arith)
        | inr ((i, o), found) ↦ (i, o, found, rw (room, found) refl)
      ]
    ]

release_order_slot-found :
    (st : SymbolExecState) (intent : OrderIntent) {i : ℕ} {o : ActiveOrder}
    → search_orders (same_id intent.client_order_id) st.orders ≡ some (i, o)
    → release_order_slot st intent ≡ close_slot st i intent.side intent.price intent.qty
unfolding release_order_slot
release_order_slot-found st intent found = rw (found, release_order_slot) refl

-- Releasing the slot that was reserved just before leaves the books of the fills as they are.
pub release_order_slot-Books :
    (st : SymbolExecState) (intent : OrderIntent) {position exposure : ℤ}
    → Books st position exposure
    → search_orders (has_open_id intent.client_order_id) st.orders ≡ none
    → (reserve_order_slot st intent).1 ≡ true
    → Books (release_order_slot (reserve_order_slot st intent).0 intent) position exposure
unfolding live_order
release_order_slot-Books st intent {position} {exposure} b fresh done =
    let id = intent.client_order_id in
    let after = (reserve_order_slot st intent).0 in
    let (i, o, free, placed) = reserve_order_slot-placed st intent done in
    let there : search_orders (same_id id) after.orders ≡ some (i, live_order intent) =
      rw placed (search_orders-reserved id (live_order intent) st.orders refl fresh free) in
    let closed =
      close_slot-Books (same_id id) after there (live_order-open intent)
        (reserve_order_slot-Books st intent b) in
    rw (release_order_slot-found after intent there) (
      subst (λ s. Books s position exposure)
        (close_slot-side after i intent.side intent.price intent.qty) closed)
