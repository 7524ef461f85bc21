-- ===== src/Mbo/Tests.antt =====
-- Concrete books of luv_mbo.hpp, and its theorems at them.
use luv_flicker.Base.{pos, true, [], ◌∷◌, refl, arith}
use luv_flicker.Mbo.{MboBook, empty_order, taken}
use luv_flicker.Mbo.Count.{IsValid, add, modify, step, step-IsValid, active_count}
use luv_flicker.Base.{◌≡◌, ◌+ℤ◌}
use luv_flicker.Mbo.{
  MboOrder, find_order, sum_ahead, rests_ahead, compute_queue_ahead, modify_order,
}
use luv_flicker.Mbo.Priority.{compute_queue_ahead-modify_order}

-- Two places are free, and one order rests.
abbrev resting : MboBook
resting = record {
  orders =
      empty_order
      ∷ record empty_order {
        order_id = 7;
        symbol_idx = 3;
        price = pos 1000;
        qty = pos 50;
        active = true;
      }
      ∷ empty_order
      ∷ [];
  order_count = 1;
}

resting-IsValid : IsValid resting
unfolding taken active_count
resting-IsValid = record {
  small = omega arith;
  counted = refl;
  distinct = (λ h. ground arith, (λ h. refl, (λ h. ground arith, tt)));
}

step-IsValid_example :
    IsValid
      (step (step resting (add 8 3 0 (pos 1000) (pos 20) 500)) (modify 7 (pos 10) (pos 1000) 600))
step-IsValid_example =
    step-IsValid (step resting (add 8 3 0 (pos 1000) (pos 20) 500))
      (modify 7 (pos 10) (pos 1000) 600)
      (step-IsValid resting (add 8 3 0 (pos 1000) (pos 20) 500) resting-IsValid)

-- Order 9 waits behind order 7; then it shrinks, with a later time stamp.
abbrev waiting : MboOrder
waiting = record empty_order {
  order_id = 9;
  symbol_idx = 3;
  price = pos 1000;
  qty = pos 30;
  priority_ts = 200;
  active = true;
}

abbrev queue : MboBook
queue = record { orders = waiting ∷ resting.orders; order_count = 2 }

compute_queue_ahead-queue : compute_queue_ahead queue 9 ≡ pos 50
unfolding compute_queue_ahead find_order sum_ahead rests_ahead ◌+ℤ◌
compute_queue_ahead-queue = refl

compute_queue_ahead-modify_order_example :
    compute_queue_ahead (modify_order queue 9 (pos 10) (pos 1000) 700).0 9
    ≡ compute_queue_ahead queue 9
unfolding find_order
compute_queue_ahead-modify_order_example =
    compute_queue_ahead-modify_order queue waiting 9 (pos 10) 700 refl (omega arith) (omega arith)
