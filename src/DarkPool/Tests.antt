-- ===== src/DarkPool/Tests.antt =====
-- Runs of luv_dark_pool.hpp, with an insertion sort for `std::sort`.
use luv_flicker.Base.{
  ℕ, ℤ, pos, ◌+ℤ◌, ◌-ℤ◌, ◌≡◌, refl, inl, inr, Bool, true, false, List, [], ◌∷◌, if◌then◌else◌,
  arith, Bool-cases, map,
}
use mathlib.Core.Logic.Or
use mathlib.Core.List.{not-mem-nil, mem-cons, Perm, Pairwise, Pairwise-cons}
use mathlib.Core.List.Perm
use luv_flicker.DarkPool.{
  empty_pool, DarkOrder, DarkPoolEngine, DisplayMode, MatchFill, Taker, add_order,
  sorted_candidates, match_cross, goes_before, fill_loop, midpoint_price, too_small, apply_fill,
  reduce_maker, fill_of,
}
use luv_flicker.DarkPool.Orders.{IsValid}
use luv_flicker.DarkPool.Order.{IsStrictWeak}
use luv_flicker.DarkPool.History.{empty_pool-IsValid, Call, run, run-IsValid}
use luv_flicker.DarkPool.Loop.{Runs}
use luv_flicker.DarkPool.Fills.{IsSort, match_cross-Runs}
use luv_flicker.DarkPool.Valid.{add_order-Adds}
use luv_flicker.DarkPool.Priority.{BestFirst, match_cross-BestFirst}

insert : (ℕ → ℕ → Bool) → ℕ → List ℕ → List ℕ
insert before x [] = x ∷ []
insert before x (y ∷ ys) =
    let rest = insert before x ys in if before x y then x ∷ y ∷ ys else y ∷ rest

insertion_sort : (ℕ → ℕ → Bool) → List ℕ → List ℕ
insertion_sort before [] = []
insertion_sort before (x ∷ xs) = insert before x (insertion_sort before xs)

insert-perm : (before : ℕ → ℕ → Bool) (x : ℕ) (ys : List ℕ) → Perm (insert before x ys) (x ∷ ys)
unfolding insert
insert-perm before x [] = Perm.refl (x ∷ [])
insert-perm before x (y ∷ ys) = elim (Bool-cases (before x y)) [
  | inl first ↦ rw (insert, first) (Perm.refl (x ∷ y ∷ ys))
  | inr later ↦
      rw (insert, later) (Perm.trans (Perm.cons y (insert-perm before x ys)) (Perm.swap x y ys))
]

InOrder : (ℕ → ℕ → Bool) → List ℕ → Type 0
InOrder before = Pairwise (λ (a b : ℕ). before b a ≡ false)

none_before :
    (before : ℕ → ℕ → Bool) (x y z : ℕ)
    → IsStrictWeak before
    → before x y ≡ true
    → before z y ≡ false
    → before z x ≡ false
none_before before x y z weak first later = ground (arith, weak.transitive z x y)

not_before :
    (before : ℕ → ℕ → Bool) (x y : ℕ) → IsStrictWeak before → before x y ≡ true → before y x ≡ false
not_before before x y weak first = ground (arith, weak.transitive x y x, weak.irreflexive x)

eq-prop : (b c : Bool) → IsProp (b ≡ c)
eq-prop b c = hlevel

insert-InOrder :
    (before : ℕ → ℕ → Bool) (x : ℕ) (ys : List ℕ)
    → IsStrictWeak before
    → InOrder before ys
    → InOrder before (insert before x ys)
unfolding insert InOrder
insert-InOrder before x [] weak p = Pairwise.cons (λ z m. absurd (not-mem-nil m)) p
insert-InOrder before x (y ∷ ys) weak p = elim (Bool-cases (before x y)) [
  | inl first ↦
      rw (insert, first)
        (Pairwise.cons
          (λ z m.
            Or.elim (eq-prop (before z x) false) (mem-cons.0 m)
              (λ e. rw e (not_before before x y weak first))
              (λ m'. none_before before x y z weak first ((Pairwise-cons.0 p).0 z m')))
          p)
  | inr later ↦
      rw (insert, later)
        (Pairwise.cons
          (λ z m.
            Or.elim (eq-prop (before z y) false)
              (mem-cons.0 ((Perm.mem_iff (insert-perm before x ys)).0 m)) (λ e. rw e later)
              (λ m'. (Pairwise-cons.0 p).0 z m'))
          (insert-InOrder before x ys weak (Pairwise-cons.0 p).1))
]

insertion_sort-IsSort : IsSort insertion_sort
unfolding insertion_sort InOrder
insertion_sort-IsSort = record { rearranges = rearranges; ordered = ordered }
  where
    rearranges : (before : ℕ → ℕ → Bool) (xs : List ℕ) → Perm (insertion_sort before xs) xs
    rearranges before [] = Perm.refl []
    rearranges before (x ∷ xs) =
        Perm.trans (insert-perm before x (insertion_sort before xs))
          (Perm.cons x (rearranges before xs))

    ordered :
        (before : ℕ → ℕ → Bool) (xs : List ℕ)
        → IsStrictWeak before
        → Pairwise (λ (a b : ℕ). before b a ≡ false) (insertion_sort before xs)
    ordered before [] weak = Pairwise.nil
    ordered before (x ∷ xs) weak =
        insert-InOrder before x (insertion_sort before xs) weak (ordered before xs weak)

-- 100 to sell at 50, displayed.
abbrev seller : DarkOrder
seller = record {
  order_id = 1;
  firm_id = 10;
  symbol_idx = 3;
  side = 1;
  display_mode = DisplayMode.displayed;
  price = pos 50;
  qty = pos 100;
  min_qty = pos 0;
  priority_ts_ns = 5;
  active = false;
}

-- 80 to sell at the midpoint, 20 at least.
abbrev pegged : DarkOrder
pegged = record {
  order_id = 2;
  firm_id = 11;
  symbol_idx = 3;
  side = 1;
  display_mode = DisplayMode.midpoint_peg;
  price = pos 0;
  qty = pos 80;
  min_qty = pos 20;
  priority_ts_ns = 4;
  active = false;
}

abbrev buyer : Taker
buyer = record {
  order_id = 9;
  firm_id = 12;
  symbol_idx = 3;
  side = 0;
  price = pos 51;
  qty = pos 130;
  best_bid = pos 48;
  best_ask = pos 50;
}

abbrev first_pool : DarkPoolEngine
first_pool = (add_order empty_pool seller).0

abbrev two_orders : DarkPoolEngine
two_orders = (add_order first_pool pegged).0

first_pool-IsValid : IsValid first_pool
first_pool-IsValid = (add_order-Adds empty_pool seller empty_pool-IsValid).valid

two_orders-IsValid : IsValid two_orders
two_orders-IsValid = (add_order-Adds first_pool pegged first_pool-IsValid).valid

run-IsValid_example : IsValid (
    run insertion_sort empty_pool
      (Call.add seller ∷ Call.add pegged ∷ Call.cross buyer 8 ∷ Call.cancel 1 ∷ []))
run-IsValid_example =
    run-IsValid insertion_sort insertion_sort-IsSort
      (Call.add seller ∷ Call.add pegged ∷ Call.cross buyer 8 ∷ Call.cancel 1 ∷ [])

match_cross-Runs_example :
    Runs buyer
      (sorted_candidates insertion_sort buyer two_orders.orders)
      two_orders
      (pos 130)
      8
      (match_cross insertion_sort two_orders buyer 8)
match_cross-Runs_example =
    match_cross-Runs insertion_sort insertion_sort-IsSort two_orders buyer 8 two_orders-IsValid

match_cross-BestFirst_example : BestFirst buyer (match_cross insertion_sort two_orders buyer 8).1
match_cross-BestFirst_example =
    match_cross-BestFirst insertion_sort insertion_sort-IsSort two_orders buyer 8 two_orders-IsValid

abbrev outline : MatchFill → ℕ × ℤ × ℤ
outline f = (f.maker_order_id, f.match_price, f.match_qty)

-- Two entries are enough for a run.
abbrev small_pool : DarkPoolEngine
small_pool = record {
  orders = record seller { active = true } ∷ record pegged { active = true } ∷ [];
  order_count = 2;
}

-- The midpoint is better than the displayed price; the rest is filled at that.
two_fills :
    map outline (match_cross insertion_sort small_pool buyer 8).1
    ≡ (2, pos 49, pos 80) ∷ (1, pos 50, pos 50) ∷ []
unfolding match_cross sorted_candidates insertion_sort insert goes_before fill_loop midpoint_price
    ◌+ℤ◌ too_small apply_fill reduce_maker ◌-ℤ◌ fill_of
two_fills = refl

-- A maker's minimum above what it has left is never met: 80 of 80 leave nothing, 70 leave 10.
remainder_stuck :
    (match_cross insertion_sort
      (match_cross insertion_sort small_pool (record buyer { qty = pos 70; price = pos 49 }) 8).0
      (record buyer { qty = pos 70; price = pos 49 })
      8).1
    ≡ []
unfolding match_cross sorted_candidates insertion_sort insert goes_before fill_loop midpoint_price
    ◌+ℤ◌ too_small apply_fill reduce_maker ◌-ℤ◌ fill_of
remainder_stuck = refl
