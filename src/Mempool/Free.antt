-- ===== src/Mempool/Free.antt =====
-- The free list of luv_mempool.hpp.
use luv_flicker.Base.{
  ℕ, zero, suc, ◌+◌, ◌-◌, ◌<◌, ◌≤◌, ◌≡◌, ◌≢◌, refl, inl, inr, true, false, List, [], ◌∷◌, ◌++◌,
  ◌==◌, ==_iff, arith, Bool-cases, update, update_ne,
}
use mathlib.Core.Logic.Or
use mathlib.Core.List.{
  Mem, mem-cons, mem-cons_self, mem-cons_of_mem, not-mem-nil, Perm, Nodup, Nodup-cons, Pairwise,
}
use native.Mathlib.Bridge.{le_prop}
use luv_flicker.Mempool.{BlockPool, invalid_index, new_pool}

-- The blocks from `i` on.
abbrev pub blocks : (i n : ℕ) → List ℕ
blocks i zero = []
blocks i (suc n) = i ∷ blocks (i + 1) n

-- Following the free list from `h` gives these blocks.
abbrev pub Chain : (ℕ → ℕ) → ℕ → List ℕ → Type 0
Chain f h [] = h ≡ invalid_index
Chain f h (i ∷ is) = (h ≡ i) × (i < invalid_index) × Chain f (f i) is

pub Chain-update :
    (f : ℕ → ℕ) (j v h : ℕ) (is : List ℕ) → (¬ Mem j is) → Chain f h is → Chain (update f j v) h is
Chain-update f j v h [] new c = c
Chain-update f j v h (i ∷ is) new (e, small, c) =
    let apart : i ≢ j = λ e'. new (rw e' mem-cons_self) in
    (
      e,
      small,
      rw (update_ne f j v i apart) (Chain-update f j v (f i) is (λ m. new (mem-cons_of_mem i m)) c),
    )

pub Chain-blocks :
    (capacity i n : ℕ)
    → i + suc n ≡ capacity
    → capacity ≤ invalid_index
    → Chain (new_pool capacity).freelist i (blocks i (suc n))
unfolding new_pool
Chain-blocks capacity i zero e fits =
    let last : i == capacity - 1 ≡ true = (==_iff i (capacity - 1)).1 (omega (arith, e)) in
    (refl, omega (arith, e), rw last refl)
Chain-blocks capacity i (suc n) e fits =
    let apart : i ≢ capacity - 1 = omega (arith, e) in
    let not_last : i == capacity - 1 ≡ false = ground arith in
    (refl, omega (arith, e), rw not_last (Chain-blocks capacity (i + 1) n (omega (arith, e)) fits))

unfoldable pub InBlocks : (i n j : ℕ) → Type 0
InBlocks i n j = (i ≤ j) × (j < i + n)

InBlocks-prop : (i n j : ℕ) → IsProp (InBlocks i n j)
unfolding InBlocks
InBlocks-prop i n j = hlevel le_prop

pub mem-blocks : (i n j : ℕ) → Mem j (blocks i n) → InBlocks i n j
unfolding InBlocks
mem-blocks i zero j m = absurd (not-mem-nil m)
mem-blocks i (suc n) j m =
    Or.elim (InBlocks-prop i (suc n) j) (mem-cons.0 m) (λ e. (omega (arith, e), omega (arith, e)))
      (λ m'. let r = mem-blocks (i + 1) n j m' in (omega (arith, r.0), omega (arith, r.1)))

pub blocks-mem : (i n j : ℕ) → i ≤ j → j < i + n → Mem j (blocks i n)
blocks-mem i zero j h k = absurd (omega arith)
blocks-mem i (suc n) j h k = elim (Bool-cases (i == j)) [
  | inl e ↦ rw (← (==_iff i j).0 e) mem-cons_self
  | inr e ↦
      let apart : i ≢ j = ground arith in
      mem-cons_of_mem i (blocks-mem (i + 1) n j (omega (arith, apart)) (omega arith))
]

pub blocks-Nodup : (i n : ℕ) → Nodup (blocks i n)
unfolding InBlocks
blocks-Nodup i zero = Pairwise.nil
blocks-Nodup i (suc n) =
    Nodup-cons.1 (λ m. absurd (omega (arith, (mem-blocks (i + 1) n i m).0)), blocks-Nodup (i + 1) n)

-- The free list and the blocks in use are together the blocks of the pool, each once.
pub record Owns (capacity : ℕ) (p : BlockPool) (free live : List ℕ) : Type 0 where
  pub chain : Chain p.freelist p.index free
  pub all : Perm (free ++ live) (blocks 0 capacity)
