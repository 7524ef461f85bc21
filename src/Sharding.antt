-- ===== src/Sharding.antt =====
-- luv_sharding.hpp: `SpscRingBuffer` of 1024 order intents and `SymbolShardedDispatcher` with its
-- four shards. A call of the producer or of the consumer is one step. Pinning a thread to a core is
-- a system call and is left out.
pub mod Queue
pub mod Shards
mod Tests
use luv_flicker.Base.{
  ℕ, ◌+◌, ◌-◌, ◌%◌, ◌^◌, Bool, true, false, Option, none, some, if◌then◌else◌, ◌==◌, leb, update,
}
use luv_flicker.Exec.Types.{OrderIntent}

-- `head_`, `tail_` and `buffer_`; the counters are uint64_t.
pub record SpscRingBuffer : Type 0 where
  pub head : ℕ
  pub tail : ℕ
  pub buffer : ℕ → OrderIntent

abbrev pub ring_capacity : ℕ
ring_capacity = 1024

abbrev pub shards : ℕ
shards = 4

-- `head - tail`
unfoldable pub used : SpscRingBuffer → ℕ
used r = (r.head + (2 ^ 64 - r.tail)) % 2 ^ 64

unfoldable pub push : SpscRingBuffer → OrderIntent → SpscRingBuffer × Bool
push r item = if leb ring_capacity (used r) then (r, false) else (
  record r { head = (r.head + 1) % 2 ^ 64; buffer = update r.buffer (r.head % ring_capacity) item },
  true,
)

unfoldable pub pop : SpscRingBuffer → SpscRingBuffer × Option OrderIntent
pop r =
    if r.tail == r.head
    then (r, none)
    else (record r { tail = (r.tail + 1) % 2 ^ 64 }, some (r.buffer (r.tail % ring_capacity)))

unfoldable pub size : SpscRingBuffer → ℕ
size r = if leb r.tail r.head then used r else 0

unfoldable pub empty : SpscRingBuffer → Bool
empty r = r.head == r.tail

unfoldable pub get_shard_index : ℕ → ℕ
get_shard_index symbol_idx = symbol_idx % shards

-- `ring_buffers_` is a function from shards to rings.
unfoldable pub dispatch : (ℕ → SpscRingBuffer) → OrderIntent → (ℕ → SpscRingBuffer) × Bool
dispatch rings order =
    let shard = get_shard_index order.symbol_idx in
    let pushed = push (rings shard) order in (update rings shard pushed.0, pushed.1)

unfoldable pub poll_shard : (ℕ → SpscRingBuffer) → ℕ → (ℕ → SpscRingBuffer) × Option OrderIntent
poll_shard rings shard =
    let popped = pop (rings shard) in
    if leb shards shard then (rings, none) else (update rings shard popped.0, popped.1)
