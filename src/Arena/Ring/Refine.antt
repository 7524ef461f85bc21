-- ===== src/Arena/Ring/Refine.antt =====
-- luv_arena.hpp, `SPSCRing`: what it promises. The items between tail and head form a queue; the
-- producer's claim, write and commit append to it, the consumer's peek and consume take its first
-- item, and the counters may wrap. The capacity is a power of two below 2 ^ 32.
use luv_flicker.Base.{
  ℕ, zero, suc, ◌+◌, ◌-◌, ◌%◌, ◌^◌, ◌<◌, ◌≤◌, ◌≡◌, ◌≢◌, ◌⊎◌, inl, inr, true, none, some, List, [],
  ◌∷◌, ◌++◌, arith, refl, sym, ap, update, update_self, update_ne, ◌∙◌,
}
use Prim.Native.Nat.{◌∣◌}
use native.Mathlib.Nat.{mod-mod_of_dvd, mod-add-mod, mod-eq-sub-mod, mod-eq_of_lt, mod-lt}
use native.Mathlib.Decide.{dec_lt}
use luv_flicker.Arena.Ring.{SpscRing, size, try_claim, write, commit, try_peek, consume}

next_mod : (c t t' : ℕ) → t % c ≡ t' % c → (t + 1) % c ≡ (t' + 1) % c
next_mod c t t' e = sym (mod-add-mod t c 1) ∙ ap (λ x. (x + 1) % c) e ∙ mod-add-mod t' c 1

-- Fewer steps than a round lead to another slot.
mod_ne : (c t k : ℕ) → 0 < k → k < c → (t + k) % c ≢ t % c
mod_ne c t k a b e =
    let r = mod-lt t {m = c} (omega arith) in
    let s = mod-add-mod t c k in
    elim (dec_lt (t % c + k) c) [
      | yes low ↦ omega (arith, s, mod-eq_of_lt low, e)
      | no high ↦ omega (
        arith,
        s,
        r,
        mod-eq-sub-mod {n = t % c + k} {m = c} (omega arith),
        mod-eq_of_lt {n = t % c + k - c} {m = c} (omega (arith, r)),
        e,
      )
    ]

module _ {ℓ} {A : Type ℓ} (capacity : ℕ) where
  abbrev items : (ℕ → A) → ℕ → ℕ → List A
  items slots t zero = []
  items slots t (suc n) = slots (t % capacity) ∷ items slots (t + 1) n

  -- The queue that the ring holds.
  abbrev pub contents : SpscRing A → List A
  contents r = items r.slots r.tail (size capacity r)

  -- The counters fit 64 bits, and the producer is a capacity ahead at most.
  pub record IsValid (r : SpscRing A) : Type 0 where
    pub attached : r.ready ≡ true
    pub head_fits : r.head < 2 ^ 64
    pub tail_fits : r.tail < 2 ^ 64
    pub bounded : size capacity r ≤ capacity

  items-mod :
      (slots : ℕ → A) (t t' n : ℕ)
      → t % capacity ≡ t' % capacity
      → items slots t n ≡ items slots t' n
  items-mod slots t t' zero e = refl
  items-mod slots t t' (suc n) e =
      rw (e, items-mod slots (t + 1) (t' + 1) n (next_mod capacity t t' e))

  items-update :
      (slots : ℕ → A) (h t n end : ℕ) (item : A)
      → n < capacity
      → end ≡ t + n
      → end % capacity ≡ h % capacity
      → items (update slots (h % capacity) item) t (suc n) ≡ items slots t n ++ (item ∷ [])
  items-update slots h t zero end item b e d =
      let same : t ≡ end = omega arith in rw (same, d, update_self slots (h % capacity) item)
  items-update slots h t (suc n) end item b e d =
      let later : end ≡ t + suc n = e in
      rw (
        update_ne slots (h % capacity) item (t % capacity) (λ c.
            mod_ne capacity t (suc n) (omega arith) b
              (ap (λ x. x % capacity) (sym later) ∙ d ∙ sym c)),
        items-update slots h (t + 1) n end item (omega arith) (omega arith) d,
      )

module _ {ℓ} {A : Type ℓ} (capacity : ℕ) (positive : 0 < capacity) (small : capacity < 2 ^ 32)
    (power : capacity ∣ 2 ^ 64) where
  head_slot :
      (r : SpscRing A)
      → IsValid capacity r
      → (r.tail + size capacity r) % capacity ≡ r.head % capacity
  unfolding size
  head_slot r v =
      let w : (r.tail + size capacity r) % 2 ^ 64 ≡ r.head = omega arith in
      sym (mod-mod_of_dvd capacity (r.tail + size capacity r) power) ∙ ap (λ x. x % capacity) w

  -- On a valid ring the producer is refused exactly when as many items capacity wait as the ring has slots.
  -- Otherwise writing an item into the claimed slot and committing it gives a valid ring with that
  -- item behind all the others.
  pub push_refines :
      (r : SpscRing A) (item : A)
      → IsValid capacity r
      → ((try_claim capacity r ≡ none) × (size capacity r ≡ capacity))
        ⊎ ((slot : ℕ) × (try_claim capacity r ≡ some slot)
            × IsValid capacity (commit capacity (write capacity r slot item))
            × (contents capacity (commit capacity (write capacity r slot item))
                ≡ contents capacity r ++ (item ∷ [])))
  unfolding try_claim commit write
  push_refines r item v = elim (dec_lt (size capacity r) capacity) [
    | no full ↦ inl (ground arith, omega (arith, v.bounded))
    | yes room ↦
        let r' = commit capacity (write capacity r (r.head % capacity) item) in
        let grown : size capacity r' ≡ suc (size capacity r) = unfold size in ground arith in
        inr (
          r.head % capacity,
          ground arith,
          record {
            attached = v.attached;
            head_fits = omega arith;
            tail_fits = v.tail_fits;
            bounded = omega arith;
          },
          rw grown (
              items-update capacity r.slots r.head r.tail (size capacity r)
                (r.tail + size capacity r) item room refl (head_slot r v)),
        )
  ]

  -- On a valid ring the consumer finds nothing exactly when no item waits. Otherwise it finds the
  -- first item, and consuming it gives a valid ring with the other items capacity.
  pub pop_refines :
      (r : SpscRing A)
      → IsValid capacity r
      → ((try_peek capacity r ≡ none) × (contents capacity r ≡ []))
        ⊎ ((slot : ℕ) × (try_peek capacity r ≡ some slot)
            × IsValid capacity (consume capacity r)
            × (contents capacity r ≡ r.slots slot ∷ contents capacity (consume capacity r)))
  unfolding try_peek consume
  pop_refines r v = elim (dec_lt 0 (size capacity r)) [
    | no none_waits ↦
        let empty : size capacity r ≡ 0 = omega arith in
        inl (unfold size in ground arith, rw empty refl)
    | yes waits ↦
        let r' = consume capacity r in
        let shrunk : size capacity r ≡ suc (size capacity r') = unfold size in ground arith in
        inr (
          r.tail % capacity,
          unfold size in ground arith,
          record {
            attached = v.attached;
            head_fits = v.head_fits;
            tail_fits = omega arith;
            bounded = omega arith;
          },
          rw shrunk (
              ap (λ xs. r.slots (r.tail % capacity) ∷ xs)
                (items-mod capacity r.slots (r.tail + 1) ((r.tail + 1) % 2 ^ 64) (size capacity r')
                  (sym (mod-mod_of_dvd capacity (r.tail + 1) power)))),
        )
  ]
