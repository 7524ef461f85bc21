-- ===== src/Sharding/Shards.antt =====
-- The dispatcher of luv_sharding.hpp as one queue for each shard.
use luv_flicker.Base.{
  ℕ, ◌%◌, ◌≡◌, ◌≢◌, refl, ap, inl, inr, Bool, Option, none, List, [], ◌∷◌, if◌then◌else◌, ◌==◌,
  ==_iff, leb, arith, Bool-cases, update, update_self, update_ne,
}
use luv_flicker.Exec.Types.{OrderIntent}
use luv_flicker.Sharding.{SpscRingBuffer, shards, get_shard_index, dispatch, poll_shard}
use luv_flicker.Sharding.Queue.{Holds, enqueue, dequeue, push-Holds, pop-Holds}

-- A call of a producer or of a worker.
pub data Call : Type 0 where
  dispatched : OrderIntent → Call
  poll : (shard : ℕ) → Call

-- What a call answers.
pub data Reply : Type 0 where
  sent : Bool → Reply
  polled : Option OrderIntent → Reply

unfoldable pub call : (ℕ → SpscRingBuffer) → Call → (ℕ → SpscRingBuffer) × Reply
call rings (Call.dispatched order) = let r = dispatch rings order in (r.0, Reply.sent r.1)
call rings (Call.poll shard) = let r = poll_shard rings shard in (r.0, Reply.polled r.1)

-- The same call on queues: an order joins the queue of its symbol's shard, if that has room, and a worker takes
-- the front of its queue.
unfoldable pub call_queues : (ℕ → List OrderIntent) → Call → (ℕ → List OrderIntent) × Reply
call_queues queues (Call.dispatched order) =
    let shard = order.symbol_idx % shards in
    let r = enqueue (queues shard) order in (update queues shard r.0, Reply.sent r.1)
call_queues queues (Call.poll shard) =
    let r = dequeue (queues shard) in
    if leb shards shard
    then (queues, Reply.polled none)
    else (update queues shard r.0, Reply.polled r.1)

unfoldable pub replies : (ℕ → SpscRingBuffer) → List Call → List Reply
replies rings [] = []
replies rings (c ∷ cs) = let r = call rings c in r.1 ∷ replies r.0 cs

unfoldable pub queue_replies : (ℕ → List OrderIntent) → List Call → List Reply
queue_replies queues [] = []
queue_replies queues (c ∷ cs) = let r = call_queues queues c in r.1 ∷ queue_replies r.0 cs

abbrev HoldAll : (ℕ → SpscRingBuffer) → (ℕ → List OrderIntent) → Type 0
HoldAll rings queues = (s : ℕ) → Holds (rings s) (queues s)

update-HoldAll :
    (rings : ℕ → SpscRingBuffer) (queues : ℕ → List OrderIntent) (s : ℕ) (r : SpscRingBuffer)
    (q : List OrderIntent)
    → HoldAll rings queues
    → Holds r q
    → HoldAll (update rings s r) (update queues s q)
update-HoldAll rings queues s r q all h j = elim (Bool-cases (s == j)) [
  | inl e ↦
      let same : s ≡ j = (==_iff s j).0 e in
      rw (← same, update_self rings s r, update_self queues s q) h
  | inr e ↦
      let apart : j ≢ s = ground arith in
      rw (update_ne rings s r j apart, update_ne queues s q j apart) (all j)
]

call-HoldAll :
    (rings : ℕ → SpscRingBuffer) (queues : ℕ → List OrderIntent) (c : Call)
    → HoldAll rings queues
    → HoldAll (call rings c).0 (call_queues queues c).0
      × ((call rings c).1 ≡ (call_queues queues c).1)
unfolding call call_queues dispatch poll_shard get_shard_index
call-HoldAll rings queues (Call.dispatched order) all =
    let shard = order.symbol_idx % shards in
    let step = push-Holds (rings shard) (queues shard) order (all shard) in
    (update-HoldAll rings queues shard _ _ all step.0, ap Reply.sent step.1)
call-HoldAll rings queues (Call.poll shard) all =
    let step = pop-Holds (rings shard) (queues shard) (all shard) in
    elim (Bool-cases (leb shards shard)) [
      | inl none_there ↦ rw (none_there) (all, refl)
      | inr there ↦
          rw there (update-HoldAll rings queues shard _ _ all step.0, ap Reply.polled step.1)
    ]

-- From rings that hold the items of some queues, one for each shard, every sequence of dispatches and polls gives the
-- answers that the queues give: each shard's orders come out in the order they went in, each once,
-- none is lost or moved to another shard, and a dispatch is refused just when its shard holds 1024.
pub replies-queues :
    (rings : ℕ → SpscRingBuffer) (queues : ℕ → List OrderIntent) (cs : List Call)
    → ((s : ℕ) → Holds (rings s) (queues s))
    → replies rings cs ≡ queue_replies queues cs
unfolding replies queue_replies
replies-queues rings queues [] all = refl
replies-queues rings queues (c ∷ cs) all =
    let step = call-HoldAll rings queues c all in
    let rest = replies-queues (call rings c).0 (call_queues queues c).0 cs step.0 in
    rw (step.1, rest) refl
