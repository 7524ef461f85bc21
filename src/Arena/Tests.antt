-- ===== src/Arena/Tests.antt =====
-- A concrete ring of luv_arena.hpp, at the wrap of its counters.
use luv_flicker.Base.{ℕ, ◌+◌, ◌-◌, ◌^◌, ◌≡◌, ◌⊎◌, true, none, some, [], ◌∷◌, ◌++◌, refl, arith}
use Prim.Native.Nat.{◌∣◌}
use luv_flicker.Arena.Ring.{SpscRing, size, try_claim, write, commit}
use luv_flicker.Arena.Ring.Refine
use luv_flicker.Arena.Ring.Refine.{contents, push_refines, pop_refines}

-- 16 slots, and three items from the last slot on; the head has wrapped.
abbrev ring : SpscRing ℕ
ring = record { ready = true; head = 2; tail = 2 ^ 64 - 1; slots = λ i. 100 + i }

sixteen_divides : 16 ∣ 2 ^ 64
sixteen_divides = ∣ (2 ^ 60, refl) ∣₁

ring-IsValid : Refine.IsValid 16 ring
unfolding size
ring-IsValid = record {
  attached = refl;
  head_fits = omega arith;
  tail_fits = omega arith;
  bounded = omega arith;
}

contents-ring : contents 16 ring ≡ 115 ∷ 100 ∷ 101 ∷ []
unfolding size
contents-ring = refl

push_refines_example :
    ((try_claim 16 ring ≡ none) × (size 16 ring ≡ 16))
    ⊎ ((slot : ℕ) × (try_claim 16 ring ≡ some slot)
        × Refine.IsValid 16 (commit 16 (write 16 ring slot 7))
        × (contents 16 (commit 16 (write 16 ring slot 7)) ≡ contents 16 ring ++ (7 ∷ [])))
push_refines_example =
    push_refines 16 (omega arith) (omega arith) sixteen_divides ring 7 ring-IsValid
