-- ===== src/Auction/Levels.antt =====
-- The price levels of luv_auction.hpp: every limit price of the symbol is one, and every price has a
-- level that pairs at least as much.
use luv_flicker.Base.{
  ℕ, ◌≡◌, ◌⊎◌, inl, inr, ℤ, pos, ◌+ℤ◌, ◌≤ℤ◌, ◌<ℤ◌, leb_ℤ, ltb_ℤ, eqb_ℤ, eqb_ℤ_iff, int_laws, Bool,
  true, false, not, ◌&&◌, ◌||◌, List, [], ◌∷◌, if◌then◌else◌, arith, Bool-cases, subst,
}
use luv_flicker.Auction.{
  AuctionOrder, AuctionCrossEngine, exists_price, is_limit, collect_prices, insert_price,
  sort_prices, price_levels, buys_at, sells_at, volume, buy_volume, sell_volume, paired,
}

exists_price-insert_price :
    (r p : ℤ) (ps : List ℤ)
    → exists_price r (p ∷ ps) ≡ true
    → exists_price r (insert_price p ps) ≡ true
unfolding exists_price insert_price
exists_price-insert_price r p [] h = h
exists_price-insert_price r p (q ∷ qs) h = ground (arith, exists_price-insert_price r p qs)

exists_price-sort_prices :
    (r : ℤ) (ps : List ℤ) → exists_price r ps ≡ true → exists_price r (sort_prices ps) ≡ true
unfolding exists_price sort_prices
exists_price-sort_prices r [] h = h
exists_price-sort_prices r (p ∷ ps) h =
    exists_price-insert_price r p (sort_prices ps) (ground (arith, exists_price-sort_prices r ps))

exists_price-collect_prices :
    (symbol : ℕ) (r : ℤ) (levels : List ℤ) (os : List AuctionOrder)
    → exists_price r levels ≡ true
    → exists_price r (collect_prices symbol levels os) ≡ true
unfolding collect_prices exists_price
exists_price-collect_prices symbol r levels [] h = h
exists_price-collect_prices symbol r levels (o ∷ os) h =
    exists_price-collect_prices symbol r
      (if is_limit symbol o && not (exists_price o.price levels) then o.price ∷ levels else levels)
      os (ground arith)

-- Every limit order of the symbol has its price among the levels.
pub record Listed (symbol : ℕ) (levels : List ℤ) (o : AuctionOrder) : Type 0 where
  pub listed : (is_limit symbol o ≡ false) ⊎ (exists_price o.price levels ≡ true)

abbrev pub AllListed : ℕ → List ℤ → List AuctionOrder → Type 0
AllListed symbol levels [] = Unit {0}
AllListed symbol levels (o ∷ os) = Listed symbol levels o × AllListed symbol levels os

AllListed-superset :
    (symbol : ℕ) (levels levels' : List ℤ) (os : List AuctionOrder)
    → ((r : ℤ) → exists_price r levels ≡ true → exists_price r levels' ≡ true)
    → AllListed symbol levels os
    → AllListed symbol levels' os
AllListed-superset symbol levels levels' [] more all = tt
AllListed-superset symbol levels levels' (o ∷ os) more (l, all) = (
  record {
    listed = elim l.listed [ inl other ↦ inl other | inr there ↦ inr (more o.price there) ];
  },
  AllListed-superset symbol levels levels' os more all,
)

collect_prices-AllListed :
    (symbol : ℕ) (levels : List ℤ) (os : List AuctionOrder)
    → AllListed symbol (collect_prices symbol levels os) os
unfolding collect_prices exists_price
collect_prices-AllListed symbol levels [] = tt
collect_prices-AllListed symbol levels (o ∷ os) =
    let more =
      if is_limit symbol o && not (exists_price o.price levels) then o.price ∷ levels else levels in
    (
      record {
        listed = elim (Bool-cases (is_limit symbol o)) [
          | inr other ↦ inl other
          | inl limit ↦ inr (
              exists_price-collect_prices symbol o.price more os
                (elim (Bool-cases (exists_price o.price levels)) [
                  | inl known ↦ rw (limit, known) known
                  | inr new ↦ rw (limit, new) (ground arith)
                ]))
        ];
      },
      collect_prices-AllListed symbol more os,
    )

pub price_levels-AllListed :
    (e : AuctionCrossEngine) (symbol : ℕ) → AllListed symbol (price_levels e symbol) e.orders
unfolding price_levels
price_levels-AllListed e symbol =
    AllListed-superset symbol (collect_prices symbol [] e.orders) (price_levels e symbol) e.orders
      (λ r. exists_price-sort_prices r (collect_prices symbol [] e.orders))
      (collect_prices-AllListed symbol [] e.orders)

-- A price `q` on the same side of `r` as `p`, or at `r`.
pub record Between (p q r : ℤ) : Type 0 where
  pub low : (p <ℤ r) ⊎ ((r ≤ℤ q) × (q ≤ℤ p))
  pub high : (r <ℤ p) ⊎ (q ≤ℤ r)

abbrev pub Near : ℤ → ℤ → List ℤ → Type 0
Near p q levels = (r : ℤ) → exists_price r levels ≡ true → Between p q r

-- Whether `x` is nearer to `p` than `q` is.
unfoldable closer : ℤ → ℤ → ℤ → Bool
closer p q x = (leb_ℤ x p && (ltb_ℤ p q || ltb_ℤ q x)) || (ltb_ℤ p x && ltb_ℤ p q && ltb_ℤ x q)

Between-self : (p x : ℤ) → Between p x x
Between-self p x = record { low = ground arith; high = ground arith }

Between-same : (p q x r : ℤ) → eqb_ℤ x r ≡ true → Between p q x → Between p q r
Between-same p q x r e b = subst (Between p q) ((eqb_ℤ_iff x r).0 e) b

Between-closer_low :
    (p q x r : ℤ) → closer p q x ≡ true → Between p q r → (p <ℤ r) ⊎ ((r ≤ℤ x) × (x ≤ℤ p))
unfolding closer
Between-closer_low p q x r c b = let l = b.low in ground arith

Between-closer_high : (p q x r : ℤ) → closer p q x ≡ true → Between p q r → (r <ℤ p) ⊎ (x ≤ℤ r)
unfolding closer
Between-closer_high p q x r c b = let l = b.low in let u = b.high in ground arith

Between-farther : (p q x : ℤ) → closer p q x ≡ false → Between p q x
unfolding closer
Between-farther p q x c = record { low = ground arith; high = ground arith }

exists_price-cases :
    (r x : ℤ) (xs : List ℤ)
    → exists_price r (x ∷ xs) ≡ true
    → (eqb_ℤ x r ≡ true) ⊎ (exists_price r xs ≡ true)
unfolding exists_price
exists_price-cases r x xs h = ground arith

exists_price-here : (x : ℤ) (xs : List ℤ) → exists_price x (x ∷ xs) ≡ true
unfolding exists_price
exists_price-here x xs = ground arith

exists_price-later :
    (r x : ℤ) (xs : List ℤ) → exists_price r xs ≡ true → exists_price r (x ∷ xs) ≡ true
unfolding exists_price
exists_price-later r x xs h = ground arith

-- Every price has a nearest level: the highest at or below it, or the lowest.
pub nearest_level :
    (p x : ℤ) (xs : List ℤ) → (q : ℤ) × (exists_price q (x ∷ xs) ≡ true) × Near p q (x ∷ xs)
unfolding exists_price
nearest_level p x [] = (
  x,
  exists_price-here x [],
  λ r h. elim (exists_price-cases r x [] h) [
    | inl here ↦ Between-same p x x r here (Between-self p x)
    | inr later ↦ absurd (ground arith)
  ],
)
nearest_level p x (y ∷ ys) =
    let (q, there, near) = nearest_level p y ys in
    elim (Bool-cases (closer p q x)) [
      | inl better ↦ (
        x,
        exists_price-here x (y ∷ ys),
        λ r h. elim (exists_price-cases r x (y ∷ ys) h) [
          | inl here ↦ Between-same p x x r here (Between-self p x)
          | inr later ↦ record {
            low = Between-closer_low p q x r better (near r later);
            high = Between-closer_high p q x r better (near r later);
          }
        ],
      )
      | inr worse ↦ (
        q,
        exists_price-later q x (y ∷ ys) there,
        λ r h. elim (exists_price-cases r x (y ∷ ys) h) [
          | inl here ↦ Between-same p q x r here (Between-farther p q x worse)
          | inr later ↦ near r later
        ],
      )
    ]

-- No order counts less at the nearest level.
takes_more :
    (symbol : ℕ) (p q : ℤ) (o : AuctionOrder)
    → (is_limit symbol o ≡ false) ⊎ Between p q o.price
    → ((buys_at symbol p o ≡ false) ⊎ (buys_at symbol q o ≡ true))
      × ((sells_at symbol p o ≡ false) ⊎ (sells_at symbol q o ≡ true))
unfolding is_limit buys_at sells_at
takes_more symbol p q o (inl other) = (ground arith, ground arith)
takes_more symbol p q o (inr b) = let l = b.low in let u = b.high in (ground arith, ground arith)

-- No order of the list has a negative quantity.
abbrev pub Quantities : List AuctionOrder → Type 0
Quantities [] = Unit {0}
Quantities (o ∷ os) = (pos 0 ≤ℤ o.qty) × Quantities os

taken_more :
    (a b : Bool) (qty v w : ℤ)
    → pos 0 ≤ℤ qty
    → (a ≡ false) ⊎ (b ≡ true)
    → v ≤ℤ w
    → (if a then qty else pos 0) +ℤ v ≤ℤ (if b then qty else pos 0) +ℤ w
taken_more true true qty v w low t h = omega int_laws
taken_more true false qty v w low (inl t) h = absurd (ground arith)
taken_more true false qty v w low (inr t) h = absurd (ground arith)
taken_more false true qty v w low t h = omega int_laws
taken_more false false qty v w low t h = omega int_laws

volumes_grow :
    (symbol : ℕ) (p q : ℤ) (levels : List ℤ) (os : List AuctionOrder)
    → AllListed symbol levels os
    → Quantities os
    → Near p q levels
    → (volume (buys_at symbol p) os ≤ℤ volume (buys_at symbol q) os)
      × (volume (sells_at symbol p) os ≤ℤ volume (sells_at symbol q) os)
unfolding volume
volumes_grow symbol p q levels [] all qs near = (omega arith, omega arith)
volumes_grow symbol p q levels (o ∷ os) (l, all) (some, qs) near =
    let (buys, sells) = volumes_grow symbol p q levels os all qs near in
    let side = elim l.listed as (λ _. (is_limit symbol o ≡ false) ⊎ Between p q o.price) [
      | inl other ↦ inl other
      | inr there ↦ inr (near o.price there)
    ] in
    let (b, s) = takes_more symbol p q o side in
    (taken_more _ _ _ _ _ some b buys, taken_more _ _ _ _ _ some s sells)

-- Every price has a level at which at least as much is paired.
pub paired_at_level :
    (e : AuctionCrossEngine) (symbol : ℕ) (p x : ℤ) (xs : List ℤ)
    → Quantities e.orders
    → price_levels e symbol ≡ x ∷ xs
    → (q : ℤ) × (exists_price q (x ∷ xs) ≡ true)
      × (paired e.orders symbol p ≤ℤ paired e.orders symbol q)
unfolding paired buy_volume sell_volume
paired_at_level e symbol p x xs qs levels =
    let (q, there, near) = nearest_level p x xs in
    let all = subst (λ ls. AllListed symbol ls e.orders) levels (price_levels-AllListed e symbol) in
    let (buys, sells) = volumes_grow symbol p q (x ∷ xs) e.orders all qs near in
    (q, there, ground arith)
