-- ===== src/Lob/Ladder/Messages.antt =====
-- Every message keeps the ladders ordered, and so does any sequence of messages from a fresh book.
use luv_flicker.Base.{
  ℕ, ◌≤◌, ◌≡◌, Bool, true, none, some, List, [], ◌∷◌, leb, Option-cases, arith, Bool-cases,
  if_cases, inl, inr,
}
use luv_flicker.Arena.Config
use luv_flicker.Arena.{TickMsg}
use luv_flicker.RefMap
use luv_flicker.RefMap.{OrderLocation}
use luv_flicker.Lob.State.{LobEngine, level, level_count, init, reject, zero_meta}
use luv_flicker.Lob.Orders.{
  find_order, Placed, placed, map_refused, place_order, tick_side, count_add, count_replace,
}
use luv_flicker.Lob.Handlers.{
  on_add_order, on_order_executed, on_order_cancel, on_order_delete, on_order_replace, on_trade,
  dispatch, dispatch_cases, touch, process_unlocked,
}
use luv_flicker.Lob.Ladder.{IsOrdered, IsOrdered-same}
use luv_flicker.Lob.Ladder.Orders.{
  IsOrdered-stats, find_order-side, IsOrdered-delete_order, IsOrdered-reduce_order,
  IsOrdered-place_order,
}

IsOrdered-count_add : (x : LobEngine × Placed) → IsOrdered x.0 → IsOrdered (count_add x)
unfolding reject
IsOrdered-count_add (e, placed) v = v
IsOrdered-count_add (e, _) v = IsOrdered-stats e _ v

IsOrdered-count_replace : (x : LobEngine × Placed) → IsOrdered x.0 → IsOrdered (count_replace x)
unfolding reject
IsOrdered-count_replace (e, placed) v = v
IsOrdered-count_replace (e, map_refused) v = v
IsOrdered-count_replace (e, _) v = IsOrdered-stats e _ v

IsOrdered-find_then :
    (e : LobEngine) (r : ℕ) (found : OrderLocation → LobEngine) (missed : LobEngine)
    → IsOrdered missed
    → ((loc : OrderLocation) → loc.side ≤ 1 → IsOrdered (found loc))
    → IsOrdered (elim (find_order e r) [ none ↦ missed | some loc ↦ found loc ])
IsOrdered-find_then e r found missed m f = elim (Option-cases (find_order e r)) [
  | inl none_there ↦ rw none_there m
  | inr (loc, there) ↦ rw there (f loc (find_order-side e r there))
]

tick_side-le : (tick : TickMsg) → tick_side tick ≤ 1
unfolding tick_side
tick_side-le tick = ground arith

IsOrdered-on_add : (e : LobEngine) (tick : TickMsg) → IsOrdered e → IsOrdered (on_add_order e tick)
unfolding on_add_order reject
IsOrdered-on_add e tick v = elim (Option-cases (RefMap.lookup e.order_map tick.order_ref)) [
  | inl new ↦
      rw (new, on_add_order)
        (IsOrdered-count_add
          (place_order _ tick.symbol_idx (tick_side tick) tick.price tick.qty tick.order_ref)
          (IsOrdered-place_order _ tick.symbol_idx (tick_side tick) tick.price tick.qty
            tick.order_ref (tick_side-le tick) (IsOrdered-stats e _ v)))
  | inr (entry, known) ↦ rw (known, on_add_order) (IsOrdered-stats e _ v)
]

IsOrdered-on_delete :
    (e : LobEngine) (tick : TickMsg) → IsOrdered e → IsOrdered (on_order_delete e tick)
unfolding on_order_delete
IsOrdered-on_delete e tick v =
    IsOrdered-find_then _ tick.order_ref _ _ (IsOrdered-stats e _ v)
      (λ loc c. IsOrdered-delete_order _ tick.order_ref loc c (IsOrdered-stats e _ v))

IsOrdered-on_replace :
    (e : LobEngine) (tick : TickMsg) → IsOrdered e → IsOrdered (on_order_replace e tick)
unfolding on_order_replace reject
IsOrdered-on_replace e tick v =
    IsOrdered-find_then _ tick.order_ref _ _ (IsOrdered-stats e _ v) λ loc c.
      elim (Bool-cases (RefMap.can_insert e.order_map tick.match_num)) [
        | inr refused ↦ rw refused (IsOrdered-stats e _ v)
        | inl clear ↦ rw clear (
            IsOrdered-count_replace _ (
              IsOrdered-place_order _ loc.symbol_idx loc.side tick.price tick.qty tick.match_num c
                (IsOrdered-delete_order _ tick.order_ref loc c (IsOrdered-stats e _ v))))
      ]

IsOrdered-touch : (e : LobEngine) (tick : TickMsg) → IsOrdered e → IsOrdered (touch e tick)
unfolding touch level level_count
IsOrdered-touch e tick v =
    IsOrdered-same e (touch e tick) (λ s i c. ground arith) (λ s i d c h. ground arith) v

IsOrdered-dispatch : (e : LobEngine) (tick : TickMsg) → IsOrdered e → IsOrdered (dispatch e tick)
unfolding reject on_order_executed on_order_cancel on_trade
IsOrdered-dispatch e tick v =
    dispatch_cases IsOrdered e tick (IsOrdered-stats e _ v) (λ h. IsOrdered-on_add e tick v)
      (IsOrdered-reduce_order _ tick (IsOrdered-stats e _ v))
      (IsOrdered-reduce_order _ tick (IsOrdered-stats e _ v)) (IsOrdered-on_delete e tick v)
      (IsOrdered-on_replace e tick v) (IsOrdered-stats e _ v)

-- Every message, of whatever type and content, leaves each ladder of the book sorted by price (bids
-- falling, asks rising, no price twice) and within the slab's depth.
pub process-IsOrdered :
    (e : LobEngine) (tick : TickMsg) → IsOrdered e → IsOrdered (process_unlocked e tick)
unfolding process_unlocked reject
process-IsOrdered e tick v =
    if_cases IsOrdered (leb Config.symbols tick.symbol_idx) _ _ (IsOrdered-stats e _ v)
      (IsOrdered-dispatch (touch e tick) tick (IsOrdered-touch e tick v))

abbrev pub run : LobEngine → List TickMsg → LobEngine
run e [] = e
run e (t ∷ ts) = run (process_unlocked e t) ts

IsOrdered-run : (e : LobEngine) (ts : List TickMsg) → IsOrdered e → IsOrdered (run e ts)
IsOrdered-run e [] v = v
IsOrdered-run e (t ∷ ts) v = IsOrdered-run (process_unlocked e t) ts (process-IsOrdered e t v)

-- A book that `init` has set up stays sorted under every sequence of messages.
pub run-init-IsOrdered :
    (e : LobEngine) (arena_ready mmap_ok : Bool) (ts : List TickMsg)
    → (init e arena_ready mmap_ok).1 ≡ true
    → IsOrdered (run (init e arena_ready mmap_ok).0 ts)
run-init-IsOrdered e arena_ready mmap_ok ts ok = IsOrdered-run _ ts fresh
  where
    metas-init : (init e arena_ready mmap_ok).0.metas ≡ λ s. zero_meta
    metas-init = unfold init in ground arith

    empty : (s i : ℕ) → level_count (init e arena_ready mmap_ok).0 s i ≡ 0
    empty s i = unfold level_count in rw metas-init (ground arith)

    fresh : IsOrdered (init e arena_ready mmap_ok).0
    fresh = record {
      depth = λ s i c. omega (arith, empty s i);
      sorted = λ s i c a b h k. absurd (omega (arith, empty s i));
    }
