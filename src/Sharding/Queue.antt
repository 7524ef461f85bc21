-- ===== src/Sharding/Queue.antt =====
-- The ring of luv_sharding.hpp as a queue.
use luv_flicker.Base.{
  ℕ, zero, suc, ◌+◌, ◌%◌, ◌^◌, ◌<◌, ◌≤◌, ◌≡◌, ◌≢◌, refl, sym, inl, inr, Bool, true, false, Option,
  none, some, List, [], ◌∷◌, ◌++◌, if◌then◌else◌, ◌==◌, ==_iff, leb, arith, Bool-cases, length,
  length-append, get_elem?, update, update_self, update_ne,
}
use luv_flicker.Exec.Types.{OrderIntent}
use luv_flicker.Sharding.{SpscRingBuffer, ring_capacity, used, push, pop, size, empty}

-- The ring holds the items of a queue, the oldest at the tail.
pub record Holds (r : SpscRingBuffer) (q : List OrderIntent) : Type 0 where
  pub small : r.tail < 2 ^ 64
  pub fits : length q ≤ ring_capacity
  pub count : r.head ≡ (r.tail + length q) % 2 ^ 64
  pub items :
      (i : ℕ) → i < length q → get_elem? q i ≡ some (r.buffer ((r.tail + i) % ring_capacity))

pub Holds-used : (r : SpscRingBuffer) (q : List OrderIntent) → Holds r q → used r ≡ length q
unfolding used
Holds-used r q h = omega (arith, h.small, h.fits, h.count)

get_elem?-append :
    (q : List OrderIntent) (x : OrderIntent) (i : ℕ)
    → i < length q
    → get_elem? (q ++ x ∷ []) i ≡ get_elem? q i
get_elem?-append [] x i h = absurd (omega arith)
get_elem?-append (y ∷ q) x zero h = refl
get_elem?-append (y ∷ q) x (suc i) h = get_elem?-append q x i (omega arith)

get_elem?-last :
    (q : List OrderIntent) (x : OrderIntent) → get_elem? (q ++ x ∷ []) (length q) ≡ some x
get_elem?-last [] x = refl
get_elem?-last (y ∷ q) x = get_elem?-last q x

-- A push is refused when there are as many items as slots, and else goes to the end of the queue.
unfoldable pub enqueue : List OrderIntent → OrderIntent → List OrderIntent × Bool
enqueue q x = if leb ring_capacity (length q) then (q, false) else (q ++ x ∷ [], true)

-- The front of the queue, if there is one.
unfoldable pub dequeue : List OrderIntent → List OrderIntent × Option OrderIntent
dequeue [] = ([], none)
dequeue (x ∷ q) = (q, some x)

module _ (r : SpscRingBuffer) (q : List OrderIntent) (x : OrderIntent) (h : Holds r q)
    (room : length q < ring_capacity) where
  pushed : SpscRingBuffer
  pushed = record r {
    head = (r.head + 1) % 2 ^ 64;
    buffer = update r.buffer (r.head % ring_capacity) x;
  }

  pushed-items :
      (i : ℕ)
      → i < length (q ++ x ∷ [])
      → get_elem? (q ++ x ∷ []) i ≡ some (pushed.buffer ((r.tail + i) % ring_capacity))
  unfolding pushed
  pushed-items i k = elim (Bool-cases (i == length q)) [
    | inl e ↦
        let last : i ≡ length q = (==_iff i (length q)).0 e in
        let here : (r.tail + length q) % 1024 ≡ r.head % 1024 = omega (arith, h.count) in
        rw (last, here, update_self r.buffer (r.head % 1024) x) (get_elem?-last q x)
    | inr e ↦
        let longer : length (q ++ x ∷ []) ≡ length q + 1 = length-append q (x ∷ []) in
        let not_last : i ≢ length q = ground arith in
        let early : i < length q = omega (arith, k, longer, not_last) in
        let apart : (r.tail + i) % 1024 ≢ r.head % 1024 =
          omega (arith, h.count, h.fits, early, room) in
        rw
          (
            update_ne r.buffer (r.head % 1024) x ((r.tail + i) % 1024) apart,
            get_elem?-append q x i early,
          )
          (h.items i early)
  ]

  pushed-Holds : Holds pushed (q ++ x ∷ [])
  unfolding pushed
  pushed-Holds =
      let longer : length (q ++ x ∷ []) ≡ length q + 1 = length-append q (x ∷ []) in
      record {
        small = h.small;
        fits = omega (arith, longer, room);
        count = omega (arith, longer, h.count);
        items = pushed-items;
      }

pub push-Holds :
    (r : SpscRingBuffer) (q : List OrderIntent) (x : OrderIntent)
    → Holds r q
    → Holds (push r x).0 (enqueue q x).0 × ((push r x).1 ≡ (enqueue q x).1)
unfolding push enqueue pushed
push-Holds r q x h = elim (Bool-cases (leb ring_capacity (length q))) [
  | inl full ↦ rw (push, enqueue, Holds-used r q h, full) (h, refl)
  | inr room ↦
      rw (push, enqueue, Holds-used r q h, room) (pushed-Holds r q x h (ground arith), refl)
]

pub pop-Holds :
    (r : SpscRingBuffer) (q : List OrderIntent)
    → Holds r q
    → Holds (pop r).0 (dequeue q).0 × ((pop r).1 ≡ (dequeue q).1)
unfolding pop dequeue
pop-Holds r [] h =
    let nothing : r.tail == r.head ≡ true =
      (==_iff r.tail r.head).1 (omega (arith, h.count, h.small)) in
    rw (pop, nothing) (h, refl)
pop-Holds r (x ∷ q) h =
    let differ : r.tail ≢ r.head = omega (arith, h.count, h.small, h.fits) in
    let something : r.tail == r.head ≡ false = ground arith in
    let front : (r.tail + 0) % 1024 ≡ r.tail % 1024 = omega arith in
    rw (pop, something)
      (
        record {
          small = omega arith;
          fits = omega (arith, h.fits);
          count = omega (arith, h.count);
          items = λ i k.
              let same : ((r.tail + 1) % 2 ^ 64 + i) % 1024 ≡ (r.tail + suc i) % 1024 =
                omega arith in
              rw same (h.items (suc i) (omega arith));
        },
        sym (rw front at (h.items 0 (omega arith))),
      )

-- `empty` and, while the counters have not wrapped apart, `size` tell the length of the queue.
pub size-Holds :
    (r : SpscRingBuffer) (q : List OrderIntent)
    → Holds r q
    → (empty r ≡ (length q == 0)) × (r.tail ≤ r.head → size r ≡ length q)
unfolding empty size
size-Holds r q h =
    let count = Holds-used r q h in
    (ground (arith, h.count, h.fits, h.small), λ apart. ground (arith, count, apart))
