-- ===== src/DarkPool/History.antt =====
-- Sequences of calls on the pool of luv_dark_pool.hpp.
use luv_flicker.Base.{
  ℕ, zero, suc, ◌≡◌, refl, sym, Bool, false, List, [], ◌∷◌, arith, replicate, length-replicate,
}
use luv_flicker.DarkPool.{
  DarkOrder, DarkPoolEngine, Taker, no_dark_order, max_resting_orders, empty_pool, add_order,
  cancel_order, match_cross,
}
use luv_flicker.DarkPool.Orders.{IsValid, order_at, active_count}
use luv_flicker.DarkPool.Valid.{add_order-Adds, cancel_order-Cancels}
use luv_flicker.DarkPool.Fills.{IsSort, match_cross-Runs}

pub data Call : Type 0 where
  add : DarkOrder → Call
  cancel : (order_id : ℕ) → Call
  cross : Taker → (max_fills : ℕ) → Call

unfoldable pub call : ((ℕ → ℕ → Bool) → List ℕ → List ℕ) → DarkPoolEngine → Call → DarkPoolEngine
call sort pool (Call.add order) = (add_order pool order).0
call sort pool (Call.cancel id) = (cancel_order pool id).0
call sort pool (Call.cross t max_fills) = (match_cross sort pool t max_fills).0

unfoldable pub run :
    ((ℕ → ℕ → Bool) → List ℕ → List ℕ) → DarkPoolEngine → List Call → DarkPoolEngine
run sort pool [] = pool
run sort pool (c ∷ cs) = run sort (call sort pool c) cs

none_active : (n : ℕ) → active_count (replicate n no_dark_order) ≡ 0
none_active zero = refl
none_active (suc n) = omega (arith, none_active n)

not_active : (n i : ℕ) → (order_at (replicate n no_dark_order) i).active ≡ false
not_active zero i = refl
not_active (suc n) zero = refl
not_active (suc n) (suc i) = not_active n i

pub empty_pool-IsValid : IsValid empty_pool
empty_pool-IsValid = record {
  size = length-replicate max_resting_orders no_dark_order;
  counted = sym (none_active max_resting_orders);
  stocked = λ i h. absurd (ground (arith, h, not_active max_resting_orders i));
}

module _ (sort : (ℕ → ℕ → Bool) → List ℕ → List ℕ) (is_sort : IsSort sort) where
  call-IsValid : (pool : DarkPoolEngine) (c : Call) → IsValid pool → IsValid (call sort pool c)
  unfolding call
  call-IsValid pool (Call.add order) valid = (add_order-Adds pool order valid).valid
  call-IsValid pool (Call.cancel id) valid = (cancel_order-Cancels pool id valid).valid
  call-IsValid pool (Call.cross t max_fills) valid =
      (match_cross-Runs sort is_sort pool t max_fills valid).valid

  calls-IsValid :
      (pool : DarkPoolEngine) (cs : List Call) → IsValid pool → IsValid (run sort pool cs)
  unfolding run
  calls-IsValid pool [] valid = valid
  calls-IsValid pool (c ∷ cs) valid =
      calls-IsValid (call sort pool c) cs (call-IsValid pool c valid)

  -- After any sequence of additions, cancellations and crosses on a new pool, `order_count` is the number of
  -- the active orders and every active order has a positive quantity, whatever order `std::sort` puts
  -- equal candidates in.
  pub run-IsValid : (cs : List Call) → IsValid (run sort empty_pool cs)
  run-IsValid cs = calls-IsValid empty_pool cs empty_pool-IsValid
