-- ===== src/DarkPool/Loop.antt =====
-- The loop of `match_cross` in luv_dark_pool.hpp: it keeps the pool valid, and its fills take from the
-- makers what they give to the taker.
use luv_flicker.Base.{
  ℕ, ◌-◌, ◌≤◌, ℤ, pos, ◌+ℤ◌, ◌-ℤ◌, ◌<ℤ◌, ◌≤ℤ◌, leb_ℤ, int_laws, parts_eq, ◌≡◌, ◌≢◌, refl, inl, inr,
  true, false, ◌||◌, List, [], ◌∷◌, ◌==◌, arith, Bool-cases, length,
}
use mathlib.Core.List.{Mem, mem-cons_self, mem-cons_of_mem, Nodup, Nodup-cons}
use luv_flicker.DarkPool.{
  DarkOrder, DarkPoolEngine, MatchFill, Taker, is_candidate, effective_price, is_peg, too_small,
  min_ℤ, fill_of, apply_fill, fill_loop,
}
use luv_flicker.DarkPool.Orders.{
  IsValid, order_at, open_qty, min_ℤ_bounds, apply_fill_other, apply_fill-open_qty,
  apply_fill-IsValid,
}

abbrev pub traded : List MatchFill → ℤ
traded [] = pos 0
traded (f ∷ fs) = f.match_qty +ℤ traded fs

abbrev pub All {ℓ κ} : {A : Type ℓ} → (A → Type κ) → List A → Type κ
All P [] = Unit
All P (x ∷ xs) = P x × All P xs

-- A fill of a maker: at the price the maker asks for, of no more than the maker has, and no
-- less than the maker's minimum.
pub record FillsMaker (t : Taker) (maker : DarkOrder) (f : MatchFill) : Type 0 where
  pub maker_id : f.maker_order_id ≡ maker.order_id
  pub taker_id : f.taker_order_id ≡ t.order_id
  pub symbol : f.symbol_idx ≡ t.symbol_idx
  pub price : f.match_price ≡ effective_price t maker
  pub midpoint : f.is_midpoint ≡ is_peg maker.display_mode
  pub some_qty : pos 0 <ℤ f.match_qty
  pub within : f.match_qty ≤ℤ maker.qty
  pub enough : too_small maker f.match_qty ≡ false

-- A fill of one of the orders at the indices, which is a candidate.
abbrev pub IsFill : Taker → List ℕ → List DarkOrder → MatchFill → Type 0
IsFill t is orders f =
    (i : ℕ) × Mem i is
    × (is_candidate t (order_at orders i) ≡ true)
    × FillsMaker t (order_at orders i) f

-- What the loop returns, for a taker with `remaining` to fill.
pub record Runs (t : Taker) (is : List ℕ) (pool : DarkPoolEngine) (remaining : ℤ) (room : ℕ)
    (r : DarkPoolEngine × List MatchFill) : Type 0 where
  pub valid : IsValid r.0
  pub conserved : open_qty r.0.orders +ℤ traded r.1 ≡ open_qty pool.orders
  pub bounded : traded r.1 ≤ℤ remaining
  pub fits : length r.1 ≤ room
  pub fills : All (IsFill t is pool.orders) r.1

is_candidate-active : (t : Taker) (o : DarkOrder) → is_candidate t o ≡ true → o.active ≡ true
unfolding is_candidate
is_candidate-active t o h = ground (arith, h)

pub All-map {ℓ} :
    {A : Type ℓ} {P Q : A → Type 0} → ((x : A) → P x → Q x) → (xs : List A) → All P xs → All Q xs
All-map f [] h = h
All-map f (x ∷ xs) h = (f x h.0, All-map f xs h.1)

-- A fill of a later index, after the order at index `i` was filled.
later-IsFill :
    (t : Taker) (i : ℕ) (is : List ℕ) (pool : DarkPoolEngine) (q : ℤ)
    → (¬ Mem i is)
    → (f : MatchFill) → IsFill t is (apply_fill pool i q).orders f
    → IsFill t (i ∷ is) pool.orders f
later-IsFill t i is pool q new f (j, m, c, fills) =
    let apart : i ≢ j = λ e. new (rw e m) in
    let other = apply_fill_other pool i q j apart in
    (j, mem-cons_of_mem i m, rw (← other) c, rw (← other) fills)

skipped-IsFill :
    (t : Taker) (i : ℕ) (is : List ℕ) (orders : List DarkOrder) (f : MatchFill)
    → IsFill t is orders f
    → IsFill t (i ∷ is) orders f
skipped-IsFill t i is orders f (j, m, c, fills) = (j, mem-cons_of_mem i m, c, fills)

-- The indices are of candidates, and no index comes twice.
pub record AreCandidates (t : Taker) (is : List ℕ) (orders : List DarkOrder) : Type 0 where
  pub distinct : Nodup is
  pub candidate : (i : ℕ) → Mem i is → is_candidate t (order_at orders i) ≡ true

pub AreCandidates-tail :
    {t : Taker} {i : ℕ} {is : List ℕ} {orders : List DarkOrder}
    → AreCandidates t (i ∷ is) orders
    → AreCandidates t is orders
AreCandidates-tail {i = i} c = record {
  distinct = (Nodup-cons.0 c.distinct).1;
  candidate = λ j m. c.candidate j (mem-cons_of_mem i m);
}

module _ {t : Taker} {is : List ℕ} {pool : DarkPoolEngine} {remaining : ℤ} {room : ℕ} where
  pub stop-Runs : IsValid pool → pos 0 ≤ℤ remaining → Runs t is pool remaining room (pool, [])
  stop-Runs valid h = record {
    valid = valid;
    conserved = omega int_laws;
    bounded = h;
    fits = omega arith;
    fills = tt;
  }

  skip-Runs :
      (i : ℕ) {r : DarkPoolEngine × List MatchFill}
      → Runs t is pool remaining room r
      → Runs t (i ∷ is) pool remaining room r
  skip-Runs i {r} k = record {
    valid = k.valid;
    conserved = k.conserved;
    bounded = k.bounded;
    fits = k.fits;
    fills = All-map (skipped-IsFill t i is pool.orders) r.1 k.fills;
  }

module _ {t : Taker} {i : ℕ} {is : List ℕ} (pool : DarkPoolEngine)
    (c : AreCandidates t (i ∷ is) pool.orders) where
  pub head-active : (order_at pool.orders i).active ≡ true
  head-active = is_candidate-active t (order_at pool.orders i) (c.candidate i mem-cons_self)

  pub AreCandidates-filled : (q : ℤ) → AreCandidates t is (apply_fill pool i q).orders
  AreCandidates-filled q =
      let parts = Nodup-cons.0 c.distinct in
      record {
        distinct = parts.1;
        candidate = λ j m.
            let apart : i ≢ j = λ e. parts.0 (rw e m) in
            rw (apply_fill_other pool i q j apart) (c.candidate j (mem-cons_of_mem i m));
      }

  fill-Runs :
      (remaining q : ℤ) (room : ℕ) (r : DarkPoolEngine × List MatchFill)
      → pos 0 <ℤ q
      → q ≤ℤ (order_at pool.orders i).qty
      → room ≢ 0
      → too_small (order_at pool.orders i) q ≡ false
      → Runs t is (apply_fill pool i q) (remaining -ℤ q) (room - 1) r
      → Runs t (i ∷ is) pool remaining room (r.0, fill_of t (order_at pool.orders i) q ∷ r.1)
  unfolding fill_of
  fill-Runs remaining q room r some_qty within has_room enough k = record {
    valid = k.valid;
    conserved =
        omega (int_laws, parts_eq k.conserved, parts_eq (apply_fill-open_qty pool i q head-active));
    bounded = omega (int_laws, k.bounded);
    fits = omega (arith, k.fits);
    fills = (
      (
        i,
        mem-cons_self,
        c.candidate i mem-cons_self,
        record {
          maker_id = refl;
          taker_id = refl;
          symbol = refl;
          price = refl;
          midpoint = refl;
          some_qty = some_qty;
          within = within;
          enough = enough;
        },
      ),
      All-map (later-IsFill t i is pool q (Nodup-cons.0 c.distinct).0) r.1 k.fills,
    );
  }

pub fill_loop-Runs :
    (t : Taker) (is : List ℕ) (pool : DarkPoolEngine) (remaining : ℤ) (room : ℕ)
    → IsValid pool
    → AreCandidates t is pool.orders
    → pos 0 ≤ℤ remaining
    → Runs t is pool remaining room (fill_loop t is pool remaining room)
unfolding fill_loop
fill_loop-Runs t [] pool remaining room valid c h = stop-Runs valid h
fill_loop-Runs t (i ∷ is) pool remaining room valid c h =
    let maker = order_at pool.orders i in
    let q = min_ℤ remaining maker.qty in
    elim (Bool-cases ((room == 0) || leb_ℤ remaining (pos 0))) [
      | inl done ↦ rw (fill_loop, done) (stop-Runs valid h)
      | inr go ↦ elim (Bool-cases (too_small maker q)) [
        | inl small ↦
            rw (fill_loop, go, small)
              (skip-Runs i (fill_loop-Runs t is pool remaining room valid (AreCandidates-tail c) h))
        | inr big ↦
            let wanted : pos 0 <ℤ remaining = ground arith in
            let has_room : room ≢ 0 = ground arith in
            let bounds =
              min_ℤ_bounds remaining maker.qty wanted (valid.stocked i (head-active pool c)) in
            let filled = apply_fill-IsValid pool i q (head-active pool c) valid bounds.2 in
            let ih =
              fill_loop-Runs t is (apply_fill pool i q) (remaining -ℤ q) (room - 1) filled
                (AreCandidates-filled pool c q) (omega (int_laws, bounds.1)) in
            rw (fill_loop, go, big)
              (fill-Runs pool c remaining q room _ bounds.0 bounds.2 has_room big ih)
      ]
    ]
