-- ===== src/Auction/Price.antt =====
-- The indicative match price of luv_auction.hpp pairs as much as any price.
use luv_flicker.Base.{
  ℕ, ◌-◌, ◌^◌, ◌≡◌, ◌≤◌, ◌<◌, ◌⊎◌, inl, inr, ℤ, pos, ◌≤ℤ◌, ◌<ℤ◌, ltb_ℤ, eqb_ℤ, Bool, true, ◌&&◌,
  ◌||◌, List, [], ◌∷◌, if◌then◌else◌, ltb, arith, int_laws, parts_eq, refl, Bool-cases, sym,
}
use luv_flicker.Auction.{
  AuctionOrder, AuctionCrossEngine, exists_price, price_levels, buys_at, sells_at, volume,
  buy_volume, sell_volume, paired, imbalance, Best, best_level, summary, compute_noii,
}
use luv_flicker.Auction.Levels.{Quantities, paired_at_level}

-- The better of two: more is paired, or as much at no larger an imbalance.
abbrev pub NoBetter : ℤ → ℕ → ℤ → ℕ → Type 0
NoBetter a i b j = (a <ℤ b) ⊎ ((a ≡ b) × (j ≤ i))

module _ (f : ℤ → ℤ) (g : ℤ → ℕ) where
  -- The step of the loop.
  abbrev step : ℤ → Best → Best
  step p b =
      if ltb_ℤ b.max_paired (f p) || (eqb_ℤ (f p) b.max_paired && ltb (g p) b.min_imbalance)
      then record { price = p; max_paired = f p; min_imbalance = g p }
      else b

  -- The two maxima are those of the price.
  abbrev IsExact : Best → Type 0
  IsExact b = (b.max_paired ≡ f b.price) × (b.min_imbalance ≡ g b.price)

  step-NoBetter :
      (p : ℤ) (b : Best)
      → NoBetter (f p) (g p) (step p b).max_paired (step p b).min_imbalance
        × NoBetter b.max_paired b.min_imbalance (step p b).max_paired (step p b).min_imbalance
  step-NoBetter p b = (ground arith, ground arith)

  step-IsExact : (p : ℤ) (b : Best) → IsExact b → IsExact (step p b)
  step-IsExact p b e = ground arith

  best_level-kept :
      (ps : List ℤ) (b : Best)
      → NoBetter b.max_paired b.min_imbalance
          (best_level f g ps b).max_paired
          (best_level f g ps b).min_imbalance
  unfolding best_level
  best_level-kept [] b = inr (refl, omega arith)
  best_level-kept (p ∷ ps) b =
      let first = (step-NoBetter p b).1 in let rest = best_level-kept ps (step p b) in ground arith

  best_level-NoBetter :
      (r : ℤ) (ps : List ℤ) (b : Best)
      → exists_price r ps ≡ true
      → NoBetter (f r) (g r) (best_level f g ps b).max_paired (best_level f g ps b).min_imbalance
  unfolding best_level exists_price
  best_level-NoBetter r [] b h = absurd (ground arith)
  best_level-NoBetter r (p ∷ ps) b h = elim (Bool-cases (eqb_ℤ p r)) [
    | inl here ↦
        let same : p ≡ r = ground arith in
        let first = (step-NoBetter p b).0 in
        let rest = best_level-kept ps (step p b) in rw (sym same) (ground arith)
    | inr later ↦ best_level-NoBetter r ps (step p b) (ground arith)
  ]

  best_level-IsExact : (ps : List ℤ) (b : Best) → IsExact b → IsExact (best_level f g ps b)
  unfolding best_level
  best_level-IsExact [] b e = e
  best_level-IsExact (p ∷ ps) b e = best_level-IsExact ps (step p b) (step-IsExact p b e)

  best_level-from :
      (p : ℤ) (ps : List ℤ) (b : Best) → IsExact (step p b) → IsExact (best_level f g (p ∷ ps) b)
  unfolding best_level
  best_level-from p ps b e = best_level-IsExact ps (step p b) e

  -- The first level is taken, so what the loop keeps is exact from there on.
  step-first :
      (p price : ℤ) (most : ℕ)
      → pos 0 ≤ℤ f p
      → g p < most
      → IsExact (step p (record { price = price; max_paired = pos 0; min_imbalance = most }))
  step-first p price most low h = ground arith

volume-bound :
    (takes : AuctionOrder → Bool) (os : List AuctionOrder)
    → Quantities os
    → pos 0 ≤ℤ volume takes os
unfolding volume
volume-bound takes [] qs = omega arith
volume-bound takes (o ∷ os) (some, qs) = elim (Bool-cases (takes o)) [
  | inl in_it ↦ rw in_it (omega (int_laws, volume-bound takes os qs))
  | inr out ↦ rw out (omega (int_laws, volume-bound takes os qs))
]

module _ (e : AuctionCrossEngine) (symbol : ℕ) (reference x : ℤ) (xs : List ℤ) where
  paired-bound : Quantities e.orders → pos 0 ≤ℤ paired e.orders symbol x
  unfolding paired buy_volume sell_volume
  paired-bound qs =
      let buys = volume-bound (buys_at symbol x) e.orders qs in
      let sells = volume-bound (sells_at symbol x) e.orders qs in ground arith

  compute_noii-found :
      price_levels e symbol ≡ x ∷ xs
      → compute_noii e symbol reference
        ≡ summary e symbol
            (best_level
              (paired e.orders symbol)
              (imbalance e.orders symbol)
              (x ∷ xs)
              (record { price = reference; max_paired = pos 0; min_imbalance = 2 ^ 63 - 1 })).price
  unfolding compute_noii
  compute_noii-found levels = rw (levels, compute_noii) refl

  -- No level is better than the match price: it pairs less, or as much at no smaller an imbalance. The
  -- symbol has a level, no quantity is negative, and the imbalance at the first level is below the
  -- largest int64_t.
  pub compute_noii-NoBetter :
      (r : ℤ)
      → Quantities e.orders
      → price_levels e symbol ≡ x ∷ xs
      → imbalance e.orders symbol x < 2 ^ 63 - 1
      → exists_price r (x ∷ xs) ≡ true
      → let noii = compute_noii e symbol reference in
        NoBetter
          (paired e.orders symbol r)
          (imbalance e.orders symbol r)
          noii.paired_qty
          noii.imbalance_qty
  unfolding summary
  compute_noii-NoBetter r qs levels small there =
      let f = paired e.orders symbol in
      let g = imbalance e.orders symbol in
      let start : Best = record {
        price = reference;
        max_paired = pos 0;
        min_imbalance = 2 ^ 63 - 1;
      } in
      let none_better = best_level-NoBetter f g r (x ∷ xs) start there in
      let (most, least) =
        best_level-from f g x xs start
          (step-first f g x reference (2 ^ 63 - 1) (paired-bound qs) small) in
      rw (compute_noii-found levels) (rw (most, least) at none_better)

  -- No price at all, be it a level or not, pairs more than the match price. The symbol has a level, no
  -- quantity is negative, and the imbalance at the first level is below the largest int64_t.
  pub compute_noii-maximal :
      (p : ℤ)
      → Quantities e.orders
      → price_levels e symbol ≡ x ∷ xs
      → imbalance e.orders symbol x < 2 ^ 63 - 1
      → paired e.orders symbol p ≤ℤ (compute_noii e symbol reference).paired_qty
  compute_noii-maximal p qs levels small =
      let (q, there, more) = paired_at_level e symbol p x xs qs levels in
      elim (compute_noii-NoBetter q qs levels small there) [
        | inl better ↦ omega arith
        | inr (same, least) ↦ omega (arith, more, parts_eq same)
      ]
