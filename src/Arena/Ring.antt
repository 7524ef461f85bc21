-- ===== src/Arena/Ring.antt =====
-- luv_arena.hpp, `SPSCRing`: one producer and one consumer over a power-of-two array.
-- `head` and `tail` are the 64-bit counters; the slots are a function from their indices.
-- A pointer into the slots is the slot's index, and `ready` says that `slots` is not null.
pub mod Refine
use luv_flicker.Base.{
  Bool, not, ℕ, ◌+◌, ◌-◌, ◌%◌, ◌^◌, Option, none, some, if◌then◌else◌, ◌==◌, leb, update,
}

pub record SpscRing {ℓ} (A : Type ℓ) : Type ℓ where
  pub ready : Bool
  pub head : ℕ
  pub tail : ℕ
  pub slots : ℕ → A

-- The capacity is a template parameter, and `& kMask` keeps the remainder modulo it.
module _ {ℓ} {A : Type ℓ} (capacity : ℕ) where
  unfoldable pub size : SpscRing A → ℕ
  size r = (r.head + 2 ^ 64 - r.tail) % 2 ^ 64

  unfoldable pub try_claim : SpscRing A → Option ℕ
  unfolding size
  try_claim r =
      if not r.ready then none else if leb capacity (size r) then none else some (r.head % capacity)

  -- The producer writes into the claimed slot.
  unfoldable pub write : SpscRing A → ℕ → A → SpscRing A
  write r slot item = record r { slots = update r.slots slot item }

  unfoldable pub commit : SpscRing A → SpscRing A
  commit r = record r { head = (r.head + 1) % 2 ^ 64 }

  unfoldable pub try_peek : SpscRing A → Option ℕ
  try_peek r =
      if not r.ready then none else if r.head == r.tail then none else some (r.tail % capacity)

  unfoldable pub consume : SpscRing A → SpscRing A
  consume r = record r { tail = (r.tail + 1) % 2 ^ 64 }
