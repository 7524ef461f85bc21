-- ===== src/Mempool.antt =====
-- luv_mempool.hpp, `LockFreeFixedBlockPool`. A call is one step: the compare-and-swap of its loop
-- succeeds. A block is its index; its contents are left out.
pub mod Free
pub mod Uses
mod Tests
use luv_flicker.Base.{ℕ, ◌+◌, ◌-◌, ◌%◌, ◌^◌, Option, none, some, if◌then◌else◌, ◌==◌, leb, update}

-- `head_`, with its index and its tag, and `freelist_`.
pub record BlockPool : Type 0 where
  pub index : ℕ
  pub tag : ℕ
  pub freelist : ℕ → ℕ

-- `kInvalidIndex`
abbrev pub invalid_index : ℕ
invalid_index = 0xFFFFFFFF

-- The constructor.
unfoldable pub new_pool : (capacity : ℕ) → BlockPool
new_pool capacity = record {
  index = 0;
  tag = 0;
  freelist = λ i. if i == capacity - 1 then invalid_index else i + 1;
}

unfoldable pub allocate : BlockPool → BlockPool × Option ℕ
allocate p =
    if p.index == invalid_index
    then (p, none)
    else (record p { index = p.freelist p.index; tag = (p.tag + 1) % 2 ^ 32 }, some p.index)

-- `none` is the null pointer. An index past the storage is ignored.
unfoldable pub deallocate : (capacity : ℕ) → BlockPool → Option ℕ → BlockPool
deallocate capacity p none = p
deallocate capacity p (some idx) = if leb capacity idx then p else record {
  index = idx;
  tag = (p.tag + 1) % 2 ^ 32;
  freelist = update p.freelist idx p.index;
}
