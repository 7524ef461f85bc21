-- ===== src/DarkPool/Fills.antt =====
-- `match_cross` of luv_dark_pool.hpp as a whole: the candidates, their order and the fills.
use luv_flicker.Base.{
  ℕ, suc, ◌+◌, ◌-◌, ◌≤◌, ℤ, pos, ◌≤ℤ◌, leb_ℤ, ◌≡◌, inl, inr, Bool, true, false, ◌||◌, List, [], ◌∷◌,
  if◌then◌else◌, ◌==◌, arith, Bool-cases, if_cases, int_laws,
}
use mathlib.Core.Logic.Or
use mathlib.Core.List.{Mem, not-mem-nil, mem-cons, Perm, Pairwise, Nodup, Nodup-cons}
use mathlib.Core.List.Perm
use native.Mathlib.Bridge.{le_prop}
use luv_flicker.DarkPool.{
  DarkOrder, DarkPoolEngine, Taker, is_candidate, candidates, goes_before, index_before,
  sorted_candidates, match_cross, fill_loop,
}
use luv_flicker.DarkPool.Orders.{IsValid, order_at}
use luv_flicker.DarkPool.Order.{IsStrictWeak, goes_before-IsStrictWeak}
use luv_flicker.DarkPool.Loop.{AreCandidates, Runs, stop-Runs, fill_loop-Runs}

-- What `std::sort` promises: its elements, rearranged, and none behind one it goes before.
pub record IsSort (sort : (ℕ → ℕ → Bool) → List ℕ → List ℕ) : Type 0 where
  pub rearranges : (before : ℕ → ℕ → Bool) (xs : List ℕ) → Perm (sort before xs) xs
  pub ordered :
      (before : ℕ → ℕ → Bool) (xs : List ℕ)
      → IsStrictWeak before
      → Pairwise (λ a b. before b a ≡ false) (sort before xs)

Sound : Taker → List DarkOrder → (i j : ℕ) → Type 0
Sound t os i j = (i ≤ j) × (is_candidate t (order_at os (j - i)) ≡ true)

head-Sound :
    (t : Taker) (o : DarkOrder) (os : List DarkOrder) (i j : ℕ)
    → is_candidate t o ≡ true
    → j ≡ i
    → Sound t (o ∷ os) i j
unfolding Sound
head-Sound t o os i j c e = let first : j - i ≡ 0 = omega arith in (omega arith, rw first c)

tail-Sound :
    (t : Taker) (o : DarkOrder) (os : List DarkOrder) (i j : ℕ)
    → Sound t os (i + 1) j
    → Sound t (o ∷ os) i j
unfolding Sound
tail-Sound t o os i j (le, c) =
    let later : j - i ≡ suc (j - (i + 1)) = omega arith in (omega arith, rw later c)

Sound-prop : (t : Taker) (os : List DarkOrder) (i j : ℕ) → IsProp (Sound t os i j)
unfolding Sound
Sound-prop t os i j = hlevel le_prop

candidates-Sound :
    (t : Taker) (os : List DarkOrder) (i j : ℕ) → Mem j (candidates t os i) → Sound t os i j
unfolding candidates
candidates-Sound t [] i j = λ m. absurd (not-mem-nil m)
candidates-Sound t (o ∷ os) i j = elim (Bool-cases (is_candidate t o)) [
  | inl c ↦
      rw (candidates, c)
        (λ m.
          Or.elim (Sound-prop t (o ∷ os) i j) (mem-cons.0 m) (head-Sound t o os i j c)
            (λ later. tail-Sound t o os i j (candidates-Sound t os (i + 1) j later)))
  | inr c ↦ rw (candidates, c) (λ m. tail-Sound t o os i j (candidates-Sound t os (i + 1) j m))
]

fresh : (t : Taker) (os : List DarkOrder) (i : ℕ) → ¬ Sound t os (i + 1) i
unfolding Sound
fresh t os i s = omega arith

candidates-Nodup : (t : Taker) (os : List DarkOrder) (i : ℕ) → Nodup (candidates t os i)
unfolding candidates
candidates-Nodup t [] i = Pairwise.nil
candidates-Nodup t (o ∷ os) i = elim (Bool-cases (is_candidate t o)) [
  | inl c ↦
      rw (candidates, c)
        (Nodup-cons.1
          (λ m. fresh t os i (candidates-Sound t os (i + 1) i m), candidates-Nodup t os (i + 1)))
  | inr c ↦ rw (candidates, c) (candidates-Nodup t os (i + 1))
]

module _ (sort : (ℕ → ℕ → Bool) → List ℕ → List ℕ) (is_sort : IsSort sort) (t : Taker) where
  pub sorted_candidates-AreCandidates :
      (os : List DarkOrder) → AreCandidates t (sorted_candidates sort t os) os
  unfolding sorted_candidates Sound
  sorted_candidates-AreCandidates os =
      let perm = is_sort.rearranges (index_before t os) (candidates t os 0) in
      record {
        distinct = Perm.nodup (Perm.symm perm) (candidates-Nodup t os 0);
        candidate = λ j m.
            let here : j - 0 ≡ j = omega arith in
            (rw here at (candidates-Sound t os 0 j ((Perm.mem_iff perm).0 m))).1;
      }

  pub sorted_candidates-ordered :
      (os : List DarkOrder)
      → Pairwise
          (λ a b. goes_before t (order_at os b) (order_at os a) ≡ false)
          (sorted_candidates sort t os)
  unfolding sorted_candidates index_before
  sorted_candidates-ordered os =
      let weak = goes_before-IsStrictWeak t in
      is_sort.ordered (index_before t os) (candidates t os 0) (record {
        irreflexive = λ a. weak.irreflexive (order_at os a);
        transitive = λ a b c. weak.transitive (order_at os a) (order_at os b) (order_at os c);
        incomparable = λ a b c. weak.incomparable (order_at os a) (order_at os b) (order_at os c);
      })

-- What a taker has to fill: nothing when its quantity is not positive.
abbrev pub wanted : Taker → ℤ
wanted t = if leb_ℤ t.qty (pos 0) then pos 0 else t.qty

-- Whatever order `std::sort` puts equal candidates in, a call of `match_cross` on a valid pool leaves a
-- valid pool; the resting orders lose just what the fills trade; the fills trade no more than a
-- positive quantity of the taker, and nothing for another one; there are no more of them than there is room for;
-- and each is a fill of a resting order that is a candidate (active, for the symbol, of the other side and
-- another firm, at a price within the taker's limit), at the price that order asks for, of a positive
-- quantity that is no more than the order has and no less than its minimum.
pub match_cross-Runs :
    (sort : (ℕ → ℕ → Bool) → List ℕ → List ℕ)
    → IsSort sort
    → (pool : DarkPoolEngine) (t : Taker) (max_fills : ℕ) → IsValid pool
    → Runs t
        (sorted_candidates sort t pool.orders)
        pool
        (wanted t)
        max_fills
        (match_cross sort pool t max_fills)
unfolding match_cross
match_cross-Runs sort is_sort pool t max_fills valid = elim (Bool-cases (leb_ℤ t.qty (pos 0))) [
  | inl empty ↦
      let nothing : max_fills == 0 || leb_ℤ t.qty (pos 0) ≡ true = ground arith in
      rw (match_cross, nothing, empty) (stop-Runs valid (omega int_laws))
  | inr some_qty ↦
      let wants : pos 0 ≤ℤ t.qty = ground arith in
      rw (match_cross, some_qty)
        (if_cases (Runs t (sorted_candidates sort t pool.orders) pool t.qty max_fills)
          (max_fills == 0 || false) (pool, [])
          (fill_loop t (sorted_candidates sort t pool.orders) pool t.qty max_fills)
          (stop-Runs valid wants)
          (fill_loop-Runs t (sorted_candidates sort t pool.orders) pool t.qty max_fills valid
            (sorted_candidates-AreCandidates sort is_sort t pool.orders) wants))
]
