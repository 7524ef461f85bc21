-- ===== src/Mempool/Uses.antt =====
-- The pool of luv_mempool.hpp in use: no block is handed out twice.
use luv_flicker.Base.{
  ℕ, zero, suc, ◌<◌, ◌≤◌, ◌≡◌, refl, sym, ◌∙◌, true, false, none, some, List, [], ◌∷◌, ◌++◌, ◌==◌,
  ==_iff, leb, arith, update_self,
}
use mathlib.Core.Option.{some-injective}
use mathlib.Core.List.{
  Mem, mem-cons_self, mem-append_left, mem-append_right, Perm, perm_middle, Nodup, Nodup-cons,
  Nodup-append, append-nil,
}
use mathlib.Core.List.Perm
use luv_flicker.Mempool.{BlockPool, invalid_index, new_pool, allocate, deallocate}
use luv_flicker.Mempool.Free.{
  blocks, Chain, Chain-update, Chain-blocks, InBlocks, mem-blocks, blocks-mem, blocks-Nodup, Owns,
}

-- A pool in use: its blocks in use, after allocations and releases of blocks in use.
pub data Uses (capacity : ℕ) : BlockPool → List ℕ → Type 0 where
  started : Uses capacity (new_pool capacity) []
  took :
      (p : BlockPool) (live : List ℕ) (i : ℕ)
      → Uses capacity p live
      → (allocate p).1 ≡ some i
      → Uses capacity (allocate p).0 (i ∷ live)
  refused :
      (p : BlockPool) (live : List ℕ)
      → Uses capacity p live
      → (allocate p).1 ≡ none
      → Uses capacity (allocate p).0 live
  gave_back :
      (p : BlockPool) (live rest : List ℕ) (i : ℕ)
      → Uses capacity p live
      → Perm live (i ∷ rest)
      → Uses capacity (deallocate capacity p (some i)) rest

-- What an allocation does to a pool with a free list.
allocate-first :
    (p : BlockPool) (i : ℕ) (is : List ℕ)
    → Chain p.freelist p.index (i ∷ is)
    → ((allocate p).1 ≡ some i) × Chain (allocate p).0.freelist (allocate p).0.index is
unfolding allocate
allocate-first p i is (e, small, c) =
    let some_left : p.index == invalid_index ≡ false = ground (arith, e, small) in
    rw (allocate, some_left) (rw e refl, rw e c)

allocate_none : (p : BlockPool) → p.index ≡ invalid_index → allocate p ≡ (p, none)
unfolding allocate
allocate_none p e =
    let nothing : p.index == invalid_index ≡ true = (==_iff p.index invalid_index).1 e in
    rw (allocate, nothing) refl

started-Owns :
    (capacity : ℕ)
    → 0 < capacity
    → capacity ≤ invalid_index
    → (free : List ℕ) × Owns capacity (new_pool capacity) free []
unfolding new_pool
started-Owns zero room fits = absurd (omega arith)
started-Owns (suc n) room fits = (
  blocks 0 (suc n),
  record {
    chain = Chain-blocks (suc n) 0 n (omega arith) fits;
    all = rw (append-nil (blocks 0 (suc n))) (Perm.refl (blocks 0 (suc n)));
  },
)

block-bound : (capacity j : ℕ) → Mem j (blocks 0 capacity) → j < capacity
unfolding InBlocks
block-bound capacity j m = omega (arith, (mem-blocks 0 capacity j m).1)

module _ (capacity : ℕ) where
  distinct : {xs : List ℕ} → Perm xs (blocks 0 capacity) → Nodup xs
  distinct perm = Perm.nodup (Perm.symm perm) (blocks-Nodup 0 capacity)

  allocate-Owns :
      (p : BlockPool) (free live : List ℕ) (i : ℕ)
      → Owns capacity p free live
      → (allocate p).1 ≡ some i
      → (rest : List ℕ) × Owns capacity (allocate p).0 rest (i ∷ live)
  allocate-Owns p [] live i o h =
      let nothing : (allocate p).1 ≡ none = rw (allocate_none p o.chain) refl in
      absurd (ground (arith, nothing, h))
  allocate-Owns p (j ∷ free) live i o h =
      let first = allocate-first p j free o.chain in
      let same : j ≡ i = some-injective j i (sym first.0 ∙ h) in
      (
        free,
        record { chain = first.1; all = rw (← same) (Perm.trans (perm_middle free live) o.all) },
      )

  deallocate-Owns :
      (p : BlockPool) (free live rest : List ℕ) (i : ℕ)
      → capacity ≤ invalid_index
      → Owns capacity p free live
      → Perm live (i ∷ rest)
      → Owns capacity (deallocate capacity p (some i)) (i ∷ free) rest
  unfolding deallocate InBlocks
  deallocate-Owns p free live rest i fits o perm =
      let moved : Perm (i ∷ (free ++ rest)) (blocks 0 capacity) =
        Perm.trans (Perm.symm (perm_middle free rest))
          (Perm.trans (Perm.append_left free (Perm.symm perm)) o.all) in
      let new = (Nodup-cons.0 (distinct moved)).0 in
      let inside = mem-blocks 0 capacity i ((Perm.mem_iff moved).0 mem-cons_self) in
      let known : leb capacity i ≡ false = ground (arith, inside.1) in
      let elsewhere : ¬ Mem i free = λ m. new (mem-append_left rest m) in
      rw (deallocate, known)
        (record {
          chain = (
            refl,
            omega (arith, inside.1, fits),
            rw (update_self p.freelist i p.index)
                (Chain-update p.freelist i p.index p.index free elsewhere o.chain),
          );
          all = moved;
        })

  allocate_none-Owns :
      (p : BlockPool) (free live : List ℕ)
      → Owns capacity p free live
      → (allocate p).1 ≡ none
      → Owns capacity (allocate p).0 free live
  allocate_none-Owns p [] live o h = rw (allocate_none p o.chain) o
  allocate_none-Owns p (j ∷ free) live o h =
      let first = allocate-first p j free o.chain in absurd (ground (arith, first.0, h))

  empty-chain :
      (p : BlockPool) (free live : List ℕ)
      → Owns capacity p free live
      → (allocate p).1 ≡ none
      → free ++ live ≡ live
  empty-chain p [] live o h = refl
  empty-chain p (j ∷ free) live o h =
      let first = allocate-first p j free o.chain in absurd (ground (arith, first.0, h))

  Uses-Owns :
      (p : BlockPool) (live : List ℕ)
      → 0 < capacity
      → capacity ≤ invalid_index
      → Uses capacity p live
      → (free : List ℕ) × Owns capacity p free live
  Uses-Owns p live room fits Uses.started = started-Owns capacity room fits
  Uses-Owns p live room fits (Uses.took p' live' i u h) =
      let before = Uses-Owns p' live' room fits u in allocate-Owns p' before.0 live' i before.1 h
  Uses-Owns p live room fits (Uses.refused p' live' u h) =
      let before = Uses-Owns p' live' room fits u in
      (before.0, allocate_none-Owns p' before.0 live' before.1 h)
  Uses-Owns p live room fits (Uses.gave_back p' live' rest i u perm) =
      let before = Uses-Owns p' live' room fits u in
      (i ∷ before.0, deallocate-Owns p' before.0 live' rest i fits before.1 perm)

-- What a pool in use guarantees.
pub record IsSafe (capacity : ℕ) (p : BlockPool) (live : List ℕ) : Type 0 where
  pub distinct_blocks : Nodup live
  pub in_storage : (i : ℕ) → Mem i live → i < capacity
  pub hands_out_free : (i : ℕ) → (allocate p).1 ≡ some i → (i < capacity) × (¬ Mem i live)
  pub exhausted : (allocate p).1 ≡ none → (i : ℕ) → i < capacity → Mem i live

-- A pool with at least one block and fewer than the invalid index, after any allocations and any releases of blocks in use:
-- the blocks in use are different and lie in the storage, an allocation hands out a block of the
-- storage that is not in use, and one that fails has every block in use.
pub Uses-IsSafe :
    (capacity : ℕ) (p : BlockPool) (live : List ℕ)
    → 0 < capacity
    → capacity ≤ invalid_index
    → Uses capacity p live
    → IsSafe capacity p live
Uses-IsSafe capacity p live room fits u =
    let owned = Uses-Owns capacity p live room fits u in
    let free = owned.0 in
    let o = owned.1 in
    let all_distinct = distinct capacity o.all in
    let in_pool : (j : ℕ) → Mem j live → j < capacity =
      λ j m. block-bound capacity j ((Perm.mem_iff o.all).0 (mem-append_right free m)) in
    record {
      distinct_blocks = (Nodup-append.0 all_distinct).1;
      in_storage = in_pool;
      hands_out_free = λ i h.
          let next = allocate-Owns capacity p free live i o h in
          let moved = Perm.trans (Perm.symm (perm_middle next.0 live)) next.1.all in
          (
            block-bound capacity i ((Perm.mem_iff moved).0 mem-cons_self),
            λ m. (Nodup-cons.0 (distinct capacity moved)).0 (mem-append_right next.0 m),
          );
      exhausted = λ h i k.
          let none_free = empty-chain capacity p free live o h in
          rw none_free at
            ((Perm.mem_iff o.all).1 (blocks-mem 0 capacity i (omega arith) (omega arith)));
    }
