-- ===== src/Lob/Ladder/Orders.antt =====
-- Taking an order out of the book and placing one keep the ladders ordered.
use luv_flicker.Base.{
  ℕ, ◌%◌, ◌^◌, ◌≤◌, ◌≡◌, refl, ◌∙◌, ℤ, pos, pos_part, ◌-ℤ◌, Option, none, some, leb_ℤ, Option-cases,
  arith, Bool-cases, inl, inr,
}
use luv_flicker.Numeric.{checked_add}
use luv_flicker.Arena.{PriceLevel, TickMsg, alloc_slot}
use luv_flicker.RefMap
use luv_flicker.RefMap.{OrderLocation}
use luv_flicker.Lob.State.{LobEngine, Stats, level, level_count}
use luv_flicker.Lob.Slots.{slot, link_slot, unlink_slot}
use luv_flicker.Lob.Levels.{find_level}
use luv_flicker.Lob.Orders.{
  find_order, valid_location, drop_slot, take_down, reduce_order, delete_order, fill_slot, withdraw,
  register_order, place_slot, place_at, find_or_insert_level, place_order, clamped_qty,
}
use luv_flicker.Lob.Ladder.{prices, IsOrdered, IsOrdered-same}
use luv_flicker.Lob.Ladder.Writes.{IsOrdered-set_level, IsOrdered-order_map}
use luv_flicker.Lob.Ladder.Removal.{IsOrdered-remove_level}
use luv_flicker.Lob.Ladder.Insertion.{IsOrdered-insert_level, find_level-none}

pub price-unlink_slot : (lvl : PriceLevel) (i : ℕ) → (unlink_slot lvl i).price ≡ lvl.price
unfolding unlink_slot
price-unlink_slot lvl i = ground arith

pub price-drop_slot : (lvl : PriceLevel) (i : ℕ) → (drop_slot lvl i).price ≡ lvl.price
unfolding drop_slot
price-drop_slot lvl i = price-unlink_slot lvl i

pub price-link_slot : (lvl : PriceLevel) (i : ℕ) → (link_slot lvl i).price ≡ lvl.price
unfolding link_slot
price-link_slot lvl i = ground arith

pub IsOrdered-stats : (e : LobEngine) (s : Stats) → IsOrdered e → IsOrdered (record e { stats = s })
unfolding level level_count
IsOrdered-stats e s v =
    IsOrdered-same e (record e { stats = s }) (λ k i c. refl) (λ k i d c h. refl) v

pub IsOrdered-take_down :
    (e : LobEngine) (r : ℕ) (loc : OrderLocation) (lvl : PriceLevel)
    → loc.side ≤ 1
    → lvl.price ≡ prices e loc.symbol_idx loc.side loc.level_idx
    → IsOrdered e
    → IsOrdered (take_down e r loc lvl)
unfolding take_down
IsOrdered-take_down e r loc lvl c same v =
    IsOrdered-remove_level _ loc.symbol_idx loc.side loc.level_idx c (
      IsOrdered-order_map _ _ (
        IsOrdered-set_level e loc.symbol_idx loc.side loc.level_idx _
          (price-unlink_slot lvl (pos_part loc.slot_idx) ∙ same) v))

-- What a handler finds lies in the book.
pub find_order-side :
    (e : LobEngine) (r : ℕ) {loc : OrderLocation} → find_order e r ≡ some loc → loc.side ≤ 1
unfolding find_order valid_location
find_order-side e r h = ground arith

pub IsOrdered-delete_order :
    (e : LobEngine) (r : ℕ) (loc : OrderLocation)
    → loc.side ≤ 1
    → IsOrdered e
    → IsOrdered (delete_order e r loc)
unfolding delete_order
IsOrdered-delete_order e r loc c v = IsOrdered-take_down e r loc _ c refl v

pub IsOrdered-reduce_order :
    (e : LobEngine) (tick : TickMsg) → IsOrdered e → IsOrdered (reduce_order e tick)
unfolding reduce_order
IsOrdered-reduce_order e tick v = go (find_order e tick.order_ref) refl
  where
    go :
        (o : Option OrderLocation)
        → find_order e tick.order_ref ≡ o
        → IsOrdered (reduce_order e tick)
    go none h = rw (h, reduce_order) v
    go (some loc) h =
        let i : ℕ = pos_part loc.slot_idx in
        let lvl = level e loc.symbol_idx loc.side loc.level_idx in
        let delta = clamped_qty tick.qty (slot lvl i).qty in
        let left = (slot lvl i).qty -ℤ delta in
        elim (Bool-cases (leb_ℤ left (pos 0))) [
          | inl spent ↦
              rw (h, reduce_order, spent)
                (IsOrdered-take_down e tick.order_ref loc _ (find_order-side e tick.order_ref h)
                  refl v)
          | inr rest ↦
              rw (h, reduce_order, rest)
                (IsOrdered-set_level e loc.symbol_idx loc.side loc.level_idx _ refl v)
        ]

pub IsOrdered-register_order :
    (e : LobEngine) (symbol side li i r : ℕ) (qty : ℤ) (lvl : PriceLevel)
    → side ≤ 1
    → lvl.price ≡ prices e symbol side li
    → IsOrdered e
    → IsOrdered (register_order e symbol side li i r qty lvl).0
unfolding register_order
IsOrdered-register_order e symbol side li i r qty lvl c same v =
    elim (Bool-cases
      (RefMap.insert e.order_map r (record {
        symbol_idx = symbol;
        side = side;
        level_idx = li % 2 ^ 16;
        slot_idx = pos i;
      })).1) [
        | inl done ↦
            rw done (IsOrdered-order_map _ _ (IsOrdered-set_level e symbol side li lvl same v))
        | inr failed ↦ rw failed (
            IsOrdered-remove_level _ symbol side li c
              (IsOrdered-set_level e symbol side li _ (price-drop_slot lvl i ∙ same) v))
      ]

pub IsOrdered-place_slot :
    (e : LobEngine) (symbol side li i r : ℕ) (qty : ℤ)
    → side ≤ 1
    → IsOrdered e
    → IsOrdered (place_slot e symbol side li i r qty).0
unfolding place_slot fill_slot withdraw
IsOrdered-place_slot e symbol side li i r qty c v =
    let lvl : PriceLevel = fill_slot (level e symbol side li) i side r qty in
    let same : lvl.price ≡ prices e symbol side li = price-link_slot _ i in
    elim (Option-cases (checked_add lvl.total_qty qty)) [
      | inl over ↦
          rw (over, place_slot)
            (IsOrdered-remove_level _ symbol side li c
              (IsOrdered-set_level e symbol side li _ (price-drop_slot lvl i ∙ same) v))
      | inr (total, fits) ↦
          rw (fits, place_slot) (IsOrdered-register_order e symbol side li i r qty _ c same v)
    ]

pub IsOrdered-place_at :
    (e : LobEngine) (symbol side li r : ℕ) (qty : ℤ)
    → side ≤ 1
    → IsOrdered e
    → IsOrdered (place_at e symbol side li r qty).0
unfolding place_at
IsOrdered-place_at e symbol side li r qty c v =
    elim (Option-cases (alloc_slot (level e symbol side li))) [
      | inl none_free ↦ rw (none_free, place_at) v
      | inr (i, free) ↦ rw (free, place_at) (IsOrdered-place_slot e symbol side li i r qty c v)
    ]

pub IsOrdered-find_or_insert :
    (e : LobEngine) (symbol side : ℕ) (price : ℤ)
    → side ≤ 1
    → IsOrdered e
    → IsOrdered (find_or_insert_level e symbol side price).0
unfolding find_or_insert_level
IsOrdered-find_or_insert e symbol side price c v =
    elim (Option-cases (find_level e symbol side price)) [
      | inr (li, found) ↦ rw (found, find_or_insert_level) v
      | inl missing ↦
          rw (missing, find_or_insert_level)
            (IsOrdered-insert_level e symbol side price c
              (find_level-none e symbol side price c v missing) v)
    ]

pub IsOrdered-place_order :
    (e : LobEngine) (symbol side : ℕ) (price qty : ℤ) (r : ℕ)
    → side ≤ 1
    → IsOrdered e
    → IsOrdered (place_order e symbol side price qty r).0
unfolding place_order
IsOrdered-place_order e symbol side price qty r c v =
    let w : IsOrdered (find_or_insert_level e symbol side price).0 =
      IsOrdered-find_or_insert e symbol side price c v in
    elim (Option-cases (find_or_insert_level e symbol side price).1) [
      | inl full ↦ rw (full, place_order) w
      | inr (li, there) ↦ rw (there, place_order) (IsOrdered-place_at _ symbol side li r qty c w)
    ]
