-- ===== src/Sharding/Tests.antt =====
-- Runs of luv_sharding.hpp.
use luv_flicker.Base.{ℕ, ◌-◌, ◌^◌, ◌≡◌, refl, pos, true, some, none, List, [], ◌∷◌, arith}
use luv_flicker.Exec.Types.{OrderIntent}
use luv_flicker.Sharding.{SpscRingBuffer, size, push, used}
use luv_flicker.Sharding.Queue.{Holds, enqueue, dequeue}
use luv_flicker.Sharding.Shards.{Call, Reply, call_queues, replies, queue_replies, replies-queues}

abbrev order : ℕ → OrderIntent
order symbol = record {
  symbol_idx = symbol;
  side = 1;
  qty = pos 4;
  price = pos 120;
  alpha_timestamp_ns = 1_000;
  now_ns = 1_000;
  client_order_id = 7;
  time_in_force = 0;
}

-- An empty ring whose counters are about to wrap.
abbrev ring : SpscRingBuffer
ring = record { head = 2 ^ 64 - 1; tail = 2 ^ 64 - 1; buffer = λ i. order 0 }

ring-Holds : Holds ring []
ring-Holds = record {
  small = omega arith;
  fits = omega arith;
  count = refl;
  items = λ i h. absurd (omega arith);
}

-- Symbols 1 and 5 share a shard.
abbrev calls : List Call
calls =
    Call.dispatched (order 1)
    ∷ Call.dispatched (order 2)
    ∷ Call.dispatched (order 5)
    ∷ Call.poll 1
    ∷ Call.poll 1
    ∷ Call.poll 1
    ∷ []

replies-queues_example : replies (λ s. ring) calls ≡ queue_replies (λ s. []) calls
replies-queues_example = replies-queues (λ s. ring) (λ s. []) calls (λ s. ring-Holds)

answers :
    queue_replies (λ s. []) calls
    ≡ Reply.sent true
      ∷ Reply.sent true
      ∷ Reply.sent true
      ∷ Reply.polled (some (order 1))
      ∷ Reply.polled (some (order 5))
      ∷ Reply.polled none
      ∷ []
unfolding queue_replies call_queues enqueue dequeue
answers = refl

-- With an item on either side of the wrap, `size` says 0.
size_at_wrap : size (push (push ring (order 1)).0 (order 2)).0 ≡ 0
unfolding size push used
size_at_wrap = refl
