-- ===== src/DarkPool/Priority.antt =====
-- The order of the fills of `match_cross` in luv_dark_pool.hpp.
use luv_flicker.Base.{
  ℕ, ◌-◌, ℤ, pos, ◌-ℤ◌, ◌≤ℤ◌, ◌<ℤ◌, leb_ℤ, int_laws, ◌≡◌, ◌≢◌, refl, inl, inr, Bool, true, false,
  ◌||◌, List, [], ◌∷◌, if◌then◌else◌, ◌==◌, arith, Bool-cases,
}
use mathlib.Core.List.{Mem, mem-cons_self, mem-cons_of_mem, Pairwise, Pairwise-cons, Nodup-cons}
use luv_flicker.Exec.Types.{buy}
use luv_flicker.DarkPool.{
  DarkOrder, DarkPoolEngine, MatchFill, Taker, effective_price, goes_before, too_small, min_ℤ,
  fill_of, apply_fill, fill_loop, match_cross, sorted_candidates,
}
use luv_flicker.DarkPool.Orders.{
  IsValid, order_at, min_ℤ_bounds, apply_fill_other, apply_fill-IsValid,
}
use luv_flicker.DarkPool.Loop.{
  All, All-map, IsFill, AreCandidates, AreCandidates-tail, AreCandidates-filled, head-active,
  fill_loop-Runs,
}
use luv_flicker.DarkPool.Fills.{IsSort, sorted_candidates-AreCandidates, sorted_candidates-ordered}

-- The first price is no worse for the taker than the second.
abbrev pub no_worse : Taker → ℤ → ℤ → Bool
no_worse t p q = if t.side == buy then leb_ℤ p q else leb_ℤ q p

-- No fill has a better price for the taker than one before it.
abbrev pub BestFirst : Taker → List MatchFill → Type 0
BestFirst t [] = Unit
BestFirst t (f ∷ fs) =
    All (λ (g : MatchFill). no_worse t f.match_price g.match_price ≡ true) fs × BestFirst t fs

goes_before-no_worse :
    (t : Taker) (a b : DarkOrder)
    → goes_before t b a ≡ false
    → no_worse t (effective_price t a) (effective_price t b) ≡ true
unfolding goes_before
goes_before-no_worse t a b h = ground arith

Pairwise-map {ℓ κ μ} :
    {A : Type ℓ} {R : A → A → Type κ} {S : A → A → Type μ} {xs : List A}
    → ((a b : A) → R a b → S a b)
    → Pairwise R xs
    → Pairwise S xs
Pairwise-map f Pairwise.nil = Pairwise.nil
Pairwise-map f (Pairwise.cons h p) = Pairwise.cons (λ b m. f _ b (h b m)) (Pairwise-map f p)

-- The prices that the orders at the indices ask for.
abbrev Asks : Taker → (price : ℕ → ℤ) → List ℕ → List DarkOrder → Type 0
Asks t price is os = (j : ℕ) → Mem j is → effective_price t (order_at os j) ≡ price j

module _ (t : Taker) (price : ℕ → ℤ) where
  abbrev InOrder : List ℕ → Type 0
  InOrder = Pairwise (λ (a b : ℕ). no_worse t (price a) (price b) ≡ true)

  later-no_worse :
      (i : ℕ) (is : List ℕ) (maker : DarkOrder) (q : ℤ) (os : List DarkOrder)
      → effective_price t maker ≡ price i
      → Asks t price is os
      → InOrder (i ∷ is)
      → (g : MatchFill) → IsFill t is os g
      → no_worse t (fill_of t maker q).match_price g.match_price ≡ true
  unfolding fill_of
  later-no_worse i is maker q os first asks order g (j, m, c, fills) =
      rw (first, fills.price, asks j m) ((Pairwise-cons.0 order).0 j m)

  Asks-filled :
      (pool : DarkPoolEngine) (i : ℕ) (is : List ℕ) (q : ℤ)
      → AreCandidates t (i ∷ is) pool.orders
      → Asks t price (i ∷ is) pool.orders
      → Asks t price is (apply_fill pool i q).orders
  Asks-filled pool i is q c asks j m =
      let apart : i ≢ j = λ e. (Nodup-cons.0 c.distinct).0 (rw e m) in
      rw (apply_fill_other pool i q j apart) (asks j (mem-cons_of_mem i m))

  fill_loop-BestFirst :
      (is : List ℕ) (pool : DarkPoolEngine) (remaining : ℤ) (room : ℕ)
      → IsValid pool
      → AreCandidates t is pool.orders
      → pos 0 ≤ℤ remaining
      → Asks t price is pool.orders
      → InOrder is
      → BestFirst t (fill_loop t is pool remaining room).1
  unfolding fill_loop
  fill_loop-BestFirst [] pool remaining room valid c h asks order = tt
  fill_loop-BestFirst (i ∷ is) pool remaining room valid c h asks order =
      let maker = order_at pool.orders i in
      let q = min_ℤ remaining maker.qty in
      let later = (Pairwise-cons.0 order).1 in
      elim (Bool-cases ((room == 0) || leb_ℤ remaining (pos 0))) [
        | inl done ↦ rw (fill_loop, done) tt
        | inr go ↦ elim (Bool-cases (too_small maker q)) [
          | inl small ↦
              rw (fill_loop, go, small)
                (fill_loop-BestFirst is pool remaining room valid (AreCandidates-tail c) h
                  (λ j m. asks j (mem-cons_of_mem i m)) later)
          | inr big ↦
              let wanted : pos 0 <ℤ remaining = ground arith in
              let bounds =
                min_ℤ_bounds remaining maker.qty wanted (valid.stocked i (head-active pool c)) in
              let filled = apply_fill-IsValid pool i q (head-active pool c) valid bounds.2 in
              let left : pos 0 ≤ℤ remaining -ℤ q = omega (int_laws, bounds.1) in
              let still = AreCandidates-filled pool c q in
              let asks_then = Asks-filled pool i is q c asks in
              let runs =
                fill_loop-Runs t is (apply_fill pool i q) (remaining -ℤ q) (room - 1) filled still
                  left in
              rw (fill_loop, go, big)
                (
                  All-map
                      (later-no_worse i is maker q (apply_fill pool i q).orders
                        (asks i mem-cons_self) asks_then order)
                      (fill_loop t is (apply_fill pool i q) (remaining -ℤ q) (room - 1)).1
                      runs.fills,
                  fill_loop-BestFirst is (apply_fill pool i q) (remaining -ℤ q) (room - 1) filled
                      still left asks_then later,
                )
        ]
      ]

-- Whatever order `std::sort` puts equal candidates in, `match_cross` on a valid pool fills the best
-- prices first: no fill has a better price for the taker than one before it.
pub match_cross-BestFirst :
    (sort : (ℕ → ℕ → Bool) → List ℕ → List ℕ)
    → IsSort sort
    → (pool : DarkPoolEngine) (t : Taker) (max_fills : ℕ) → IsValid pool
    → BestFirst t (match_cross sort pool t max_fills).1
unfolding match_cross
match_cross-BestFirst sort is_sort pool t max_fills valid =
    let is = sorted_candidates sort t pool.orders in
    let order =
      Pairwise-map (λ a b. goes_before-no_worse t (order_at pool.orders a) (order_at pool.orders b))
        (sorted_candidates-ordered sort is_sort t pool.orders) in
    elim (Bool-cases (max_fills == 0 || leb_ℤ t.qty (pos 0))) [
      | inl nothing ↦ rw (match_cross, nothing) tt
      | inr go ↦
          rw (match_cross, go)
            (fill_loop-BestFirst t (λ j. effective_price t (order_at pool.orders j)) is pool t.qty
              max_fills valid (sorted_candidates-AreCandidates sort is_sort t pool.orders)
              (ground arith) (λ j m. refl) order)
    ]
