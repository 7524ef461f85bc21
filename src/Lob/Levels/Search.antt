-- ===== src/Lob/Levels/Search.antt =====
-- The price ladder of one side as a function from depths to prices: what the binary search of
-- `find_level` and the insertion point of `insert_level_impl` are.
use luv_flicker.Base.{
  ℕ, zero, suc, ◌+◌, ◌-◌, ◌/◌, ◌≤◌, ◌<◌, ◌≡◌, ◌≢◌, inl, inr, ℤ, true, false, none, some,
  if◌then◌else◌, ltb, ◌==◌, eq_of_parts, arith, ap, sym, ◌∙◌, subst, Bool-cases,
}
use native.Mathlib.Decide.{dec_lt, ℕ_discrete}
use luv_flicker.Lob.Levels.{ahead, search_level, insert_pos}

pub ahead_trans :
    (side : ℕ) (p q r : ℤ) → ahead side p q ≡ true → ahead side q r ≡ true → ahead side p r ≡ true
unfolding ahead
ahead_trans side p q r h k = ground arith

pub ahead_irrefl : (side : ℕ) (p : ℤ) → ahead side p p ≡ false
unfolding ahead
ahead_irrefl side p = ground arith

-- Of two different prices the one not ahead stands behind.
pub ahead_total : (side : ℕ) (p q : ℤ) → p ≢ q → ahead side p q ≡ false → ahead side q p ≡ true
unfolding ahead
ahead_total side p q h k = ground (arith, eq_of_parts p q)

-- The first `n` prices stand in order, none twice.
abbrev pub Sorted : ℕ → (ℕ → ℤ) → ℕ → Type 0
Sorted side prices n = (i j : ℕ) → i < j → j < n → ahead side (prices i) (prices j) ≡ true

-- What the search returns is in range and at that price.
pub search_level_sound :
    (prices : ℕ → ℤ) (side : ℕ) (price : ℤ) (n lo hi i : ℕ)
    → search_level prices side price n lo hi ≡ some i
    → (lo ≤ i) × (i < hi) × (prices i ≡ price)
unfolding search_level
search_level_sound prices side price zero lo hi i e = absurd (ground arith)
search_level_sound prices side price (suc n) lo hi i e = ground (
  arith,
  search_level_sound prices side price n lo mid i,
  search_level_sound prices side price n (mid + 1) hi i,
  eq_of_parts (prices mid) price,
)
  where
    mid : ℕ
    mid = lo + (hi - 1 - lo) / 2

-- On a sorted ladder, with as much fuel as there are levels, a failed search means that no level
-- of the range has the price.
pub search_level_complete :
    (prices : ℕ → ℤ) (side : ℕ) (price : ℤ) (n lo hi : ℕ)
    → Sorted side prices hi
    → hi ≤ lo + n
    → search_level prices side price n lo hi ≡ none
    → (i : ℕ) → lo ≤ i
    → i < hi
    → prices i ≢ price
unfolding search_level
search_level_complete prices side price zero lo hi s h e i a b at = absurd (omega arith)
search_level_complete prices side price (suc n) lo hi s h e i a b at = elim (dec_lt i mid) [
  | yes before ↦
      let front : ahead side price (prices mid) ≡ true =
        subst (λ p. ahead side p (prices mid) ≡ true) at (s i mid before (omega arith)) in
      search_level_complete prices side price n lo mid (λ j k h1 h2. s j k h1 (omega arith))
        (omega arith) (went front) i a before at
  | no behind ↦ elim (ℕ_discrete i mid) [
    | yes here ↦ stays (ap prices (sym here) ∙ at)
    | no off ↦
        let rear : ahead side (prices mid) price ≡ true =
          subst (λ p. ahead side (prices mid) p ≡ true) at (s mid i (omega arith) b) in
        search_level_complete prices side price n (mid + 1) hi s (omega arith) (rests rear) i
          (omega arith) b at
  ]
]
  where
    mid : ℕ
    mid = lo + (hi - 1 - lo) / 2

    went : ahead side price (prices mid) ≡ true → search_level prices side price n lo mid ≡ none
    went front = ground (arith, ahead_irrefl side price, eq_of_parts (prices mid) price)

    rests :
        ahead side (prices mid) price ≡ true → search_level prices side price n (mid + 1) hi ≡ none
    rests rear = ground (
      arith,
      ahead_irrefl side price,
      ahead_trans side price (prices mid) price,
      eq_of_parts (prices mid) price,
    )

    stays : prices mid ≡ price → ⊥
    stays same = ground arith

-- The insertion point is in range; the price stands before the level there, and before none that
-- precedes it.
pub insert_pos_split :
    (prices : ℕ → ℤ) (side : ℕ) (price : ℤ) (n i : ℕ)
    → let at = insert_pos prices side price n i in
      (i ≤ at)
      × (at ≤ i + n)
      × (at < i + n → ahead side price (prices at) ≡ true)
      × ((j : ℕ) → i ≤ j → j < at → ahead side price (prices j) ≡ false)
unfolding insert_pos
insert_pos_split prices side price zero i =
    (omega arith, omega arith, λ h. absurd (omega arith), λ j a b. absurd (omega arith))
insert_pos_split prices side price (suc n) i = elim (Bool-cases (ahead side price (prices i))) [
  | inl front ↦ rw front (omega arith, omega arith, λ h. front, λ j a b. absurd (omega arith))
  | inr behind ↦
      let (low, high, here, before) = insert_pos_split prices side price n (suc i) in
      rw behind (
        omega arith,
        omega arith,
        λ h. here (omega arith),
        λ j a b. elim (ℕ_discrete i j) [
          | yes e ↦ subst (λ k. ahead side price (prices k) ≡ false) e behind
          | no e ↦ before j (omega arith) (omega arith)
        ],
      )
]

-- The ladder with a price put in at a depth, and with the depth taken out.
abbrev pub opened : (ℕ → ℤ) → ℕ → ℤ → ℕ → ℤ
opened prices at price i = if ltb i at then prices i else if i == at then price else prices (i - 1)

abbrev pub closed : (ℕ → ℤ) → ℕ → ℕ → ℤ
closed prices at i = if ltb i at then prices i else prices (i + 1)

pub Sorted-closed :
    (prices : ℕ → ℤ) (side at n : ℕ) → Sorted side prices n → Sorted side (closed prices at) (n - 1)
Sorted-closed prices side at n s i j h k = ground (
  arith,
  s i j h (omega arith),
  s i (j + 1) (omega arith) (omega arith),
  s (i + 1) (j + 1) (omega arith) (omega arith),
)

module _ (prices : ℕ → ℤ) (side : ℕ) (price : ℤ) (n at : ℕ) (s : Sorted side prices n)
    (front : (i : ℕ) → i < at → ahead side (prices i) price ≡ true)
    (back : (i : ℕ) → at ≤ i → i < n → ahead side price (prices i) ≡ true) (fits : at ≤ n) where
  Sorted-opened_at : Sorted side (opened prices at price) (suc n)
  Sorted-opened_at i j h k = elim (dec_lt i at) [
    | yes low ↦ elim (dec_lt j at) [
      | yes low' ↦ ground (arith, s i j h (omega arith))
      | no high' ↦ elim (ℕ_discrete j at) [
        | yes here' ↦ ground (arith, front i low)
        | no off' ↦ ground (arith, s i (j - 1) (omega arith) (omega arith))
      ]
    ]
    | no high ↦ elim (ℕ_discrete i at) [
      | yes here ↦ ground (arith, back (j - 1) (omega arith) (omega arith))
      | no off ↦ ground (arith, s (i - 1) (j - 1) (omega arith) (omega arith))
    ]
  ]

-- A new price at its insertion point keeps the ladder sorted.
pub Sorted-opened :
    (prices : ℕ → ℤ) (side : ℕ) (price : ℤ) (n : ℕ)
    → Sorted side prices n
    → ((i : ℕ) → i < n → prices i ≢ price)
    → Sorted side (opened prices (insert_pos prices side price n 0) price) (suc n)
Sorted-opened prices side price n s new =
    let (low, high, here, before) = insert_pos_split prices side price n 0 in
    let at = insert_pos prices side price n 0 in
    Sorted-opened_at prices side price n at s
      (λ i h.
        ahead_total side price (prices i) (λ e. new i (omega arith) (sym e))
          (before i (omega arith) h))
      (λ i h k. elim (ℕ_discrete at i) [
        | yes e ↦ subst (λ m. ahead side price (prices m) ≡ true) e (here (omega arith))
        | no e ↦
            ahead_trans side price (prices at) (prices i) (here (omega arith))
              (s at i (omega arith) k)
      ])
      (omega arith)
