-- ===== src/Mempool/Tests.antt =====
-- Runs of luv_mempool.hpp, at its capacity of 4096 blocks.
use luv_flicker.Base.{◌≡◌, refl, [], ◌∷◌, some, arith}
use mathlib.Core.List.Perm
use luv_flicker.Mempool.{BlockPool, new_pool, allocate, deallocate}
use luv_flicker.Mempool.Uses.{Uses, IsSafe, Uses-IsSafe}

abbrev one_out : BlockPool
one_out = (allocate (new_pool 4_096)).0

abbrev two_out : BlockPool
two_out = (allocate one_out).0

block_0 : (allocate (new_pool 4_096)).1 ≡ some 0
unfolding allocate new_pool
block_0 = refl

block_1 : (allocate one_out).1 ≡ some 1
unfolding allocate new_pool
block_1 = refl

-- Two blocks are taken, and the first one of them is given back.
Uses-IsSafe_example : IsSafe 4_096 (deallocate 4_096 two_out (some 0)) (1 ∷ [])
Uses-IsSafe_example =
    Uses-IsSafe 4_096 (deallocate 4_096 two_out (some 0)) (1 ∷ []) (omega arith) (omega arith) (
      Uses.gave_back two_out (1 ∷ 0 ∷ []) (1 ∷ []) 0
        (Uses.took one_out (0 ∷ []) 1 (Uses.took (new_pool 4_096) [] 0 Uses.started block_0)
          block_1)
        (Perm.swap 0 1 []))

-- It is the next to be handed out.
block_0_again : (allocate (deallocate 4_096 two_out (some 0))).1 ≡ some 0
unfolding allocate deallocate new_pool
block_0_again = refl
