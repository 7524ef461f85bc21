-- ===== src/RefMap/Probe.antt =====
-- The probe loops of `OrderRefMap` over a key array: what they find, and that writing a key at a
-- dead slot, or a tombstone at a found one, disturbs no other reference.
use luv_flicker.Base.{
  ℕ, zero, suc, ◌+◌, ◌%◌, ◌<◌, ◌≤◌, ◌≡◌, ◌≢◌, ◌⊎◌, Option, none, some, update, arith, refl, true,
}
use native.Mathlib.Decide.{ℕ_discrete}
use luv_flicker.RefMap.{
  capacity, next_slot, empty_key, tombstone, find_key, probe, can_probe, present, vacant, exhausted,
  note_tombstone, or_slot,
}

-- The key stands at none of the `n` slots from `slot` on.
abbrev pub Absent : (ℕ → ℕ) → ℕ → ℕ → ℕ → Type 0
Absent keys q zero slot = Unit {0}
Absent keys q (suc n) slot = (keys slot ≢ q) × Absent keys q n (next_slot slot)

-- Along a probe path the key stands once at most, and behind no empty slot.
abbrev pub IsPath : (ℕ → ℕ) → ℕ → ℕ → ℕ → Type 0
IsPath keys q zero slot = Unit {0}
IsPath keys q (suc n) slot =
    (keys slot ≡ empty_key → Absent keys q n (next_slot slot))
    × (keys slot ≡ q → Absent keys q n (next_slot slot))
    × IsPath keys q n (next_slot slot)

-- The slot is none of the `n` slots from `slot` on.
abbrev Avoids : ℕ → ℕ → ℕ → Type 0
Avoids d zero slot = Unit {0}
Avoids d (suc n) slot = (slot ≢ d) × Avoids d n (next_slot slot)

Avoids-from :
    (d k n slot : ℕ)
    → d < capacity
    → 0 < k
    → k + n ≤ capacity
    → slot ≡ (d + k) % capacity
    → Avoids d n slot
Avoids-from d k zero slot hd hk hn e = tt
Avoids-from d k (suc n) slot hd hk hn e = (
  omega arith,
  Avoids-from d (k + 1) n (next_slot slot) hd (omega arith) (omega arith) (omega arith),
)

pub find_key-Absent :
    (keys : ℕ → ℕ) (q n slot : ℕ) → Absent keys q n slot → find_key keys q n slot ≡ none
unfolding find_key
find_key-Absent keys q zero slot h = refl
find_key-Absent keys q (suc n) slot h =
    ground (arith, find_key-Absent keys q n (next_slot slot) h.1)

pub keys-find_key : (keys : ℕ → ℕ) (q n slot s : ℕ) → find_key keys q n slot ≡ some s → keys s ≡ q
unfolding find_key
keys-find_key keys q zero slot s e = ground arith
keys-find_key keys q (suc n) slot s e = ground (arith, keys-find_key keys q n (next_slot slot) s)

-- A write of `key` at a dead slot `d`, or of a tombstone at a slot that holds another key, seen
-- from a reference `q` that is neither.
module _ (keys : ℕ → ℕ) (d key q : ℕ) (other : key ≢ q) where
  pub Absent-update : (n slot : ℕ) → Absent keys q n slot → Absent (update keys d key) q n slot
  Absent-update zero slot h = tt
  Absent-update (suc n) slot h = (ground arith, Absent-update n (next_slot slot) h.1)

  pub IsPath-update :
      (n slot : ℕ) → key ≢ empty_key → IsPath keys q n slot → IsPath (update keys d key) q n slot
  IsPath-update zero slot live h = tt
  IsPath-update (suc n) slot live h = (
    λ e. Absent-update n (next_slot slot) (h.0 (ground arith)),
    λ e. Absent-update n (next_slot slot) (h.1 (ground arith)),
    IsPath-update n (next_slot slot) live h.2,
  )

  -- Where the old key was a tombstone or empty, `q` is found where it was.
  pub find_key-update :
      (n slot : ℕ)
      → key ≢ empty_key
      → (keys d ≡ empty_key) ⊎ (keys d ≢ q)
      → q ≢ empty_key
      → IsPath keys q n slot
      → find_key (update keys d key) q n slot ≡ find_key keys q n slot
  unfolding find_key
  find_key-update zero slot live dead real h = refl
  find_key-update (suc n) slot live dead real h = ground (
    arith,
    find_key-update n (next_slot slot) live dead real h.2,
    find_key-Absent keys q n (next_slot slot),
  )

pub probe_present :
    (keys : ℕ → ℕ) (r n slot : ℕ) (t : Option ℕ) (s : ℕ)
    → probe keys r n slot t ≡ present s
    → find_key keys r n slot ≡ some s
unfolding find_key probe
probe_present keys r zero slot t s e = ground arith
probe_present keys r (suc n) slot t s e =
    ground (arith, probe_present keys r n (next_slot slot) (note_tombstone (keys slot) slot t) s)

-- Once a tombstone is noted it is the slot to write.
probe_noted :
    (keys : ℕ → ℕ) (r n slot t d : ℕ)
    → (probe keys r n slot (some t) ≡ vacant d)
      ⊎ (probe keys r n slot (some t) ≡ exhausted (some d))
    → d ≡ t
unfolding probe
probe_noted keys r zero slot t d e = ground arith
probe_noted keys r (suc n) slot t d e = ground (arith, probe_noted keys r n (next_slot slot) t d)

-- A loop that does not meet the key shows that it is not there.
pub probe-Absent :
    (keys : ℕ → ℕ) (r n slot : ℕ) (t : Option ℕ) (d : ℕ) (o : Option ℕ)
    → IsPath keys r n slot
    → (probe keys r n slot t ≡ vacant d) ⊎ (probe keys r n slot t ≡ exhausted o)
    → Absent keys r n slot
unfolding probe
probe-Absent keys r zero slot t d o h e = tt
probe-Absent keys r (suc n) slot t d o h e =
    ground
      (arith, probe-Absent keys r n (next_slot slot) (note_tombstone (keys slot) slot t) d o h.2)

-- The slot that the loop of `insert` names is dead, and after the write `lookup` finds the key
-- there.
abbrev pub Writes : (ℕ → ℕ) → ℕ → ℕ → ℕ → ℕ → Type 0
Writes keys r n slot d =
    (find_key (update keys d r) r n slot ≡ some d) × ((keys d ≡ empty_key) ⊎ (keys d ≡ tombstone))

pub probe-Writes :
    (keys : ℕ → ℕ) (r n slot d : ℕ)
    → r ≢ empty_key
    → (probe keys r n slot none ≡ vacant d) ⊎ (probe keys r n slot none ≡ exhausted (some d))
    → Writes keys r n slot d
unfolding probe find_key
probe-Writes keys r zero slot d e0 e = ground arith
probe-Writes keys r (suc n) slot d e0 e = ground (
  arith,
  probe-Writes keys r n (next_slot slot) d e0,
  probe_noted keys r n (next_slot slot) slot d,
)

-- The written key stands once: the path of at most `capacity` slots does not come back.
Absent-elsewhere :
    (keys : ℕ → ℕ) (r d n slot : ℕ)
    → Avoids d n slot
    → Absent keys r n slot
    → Absent (update keys d r) r n slot
Absent-elsewhere keys r d zero slot a h = tt
Absent-elsewhere keys r d (suc n) slot a h =
    (ground arith, Absent-elsewhere keys r d n (next_slot slot) a.1 h.1)

pub Absent-IsPath : (keys : ℕ → ℕ) (r n slot : ℕ) → Absent keys r n slot → IsPath keys r n slot
Absent-IsPath keys r zero slot h = tt
Absent-IsPath keys r (suc n) slot h =
    (λ e. h.1, λ e. h.1, Absent-IsPath keys r n (next_slot slot) h.1)

pub IsPath-insert :
    (keys : ℕ → ℕ) (r d n slot : ℕ)
    → slot < capacity
    → n ≤ capacity
    → r ≢ empty_key
    → Absent keys r n slot
    → find_key (update keys d r) r n slot ≡ some d
    → IsPath (update keys d r) r n slot
unfolding find_key
IsPath-insert keys r d zero slot hs hn e0 h f = tt
IsPath-insert keys r d (suc n) slot hs hn e0 h f = elim (ℕ_discrete slot d) [
  | yes here ↦
      let gone : Absent (update keys d r) r n (next_slot slot) =
        Absent-elsewhere keys r d n (next_slot slot)
          (Avoids-from d 1 n (next_slot slot) (omega arith) (omega arith) (omega arith)
            (omega arith))
          h.1 in
      (λ e. gone, λ e. gone, Absent-IsPath (update keys d r) r n (next_slot slot) gone)
  | no there ↦ (
    λ e. absurd (ground arith),
    λ e. absurd (ground arith),
    IsPath-insert keys r d n (next_slot slot) (omega arith) (omega arith) e0 h.1 (ground arith),
  )
]

pub can_probe_vacant :
    (keys : ℕ → ℕ) (r n slot : ℕ) (t : Option ℕ)
    → can_probe keys r n slot ≡ true
    → (d : ℕ) × (probe keys r n slot t ≡ vacant d)
unfolding can_probe probe
can_probe_vacant keys r zero slot t e = absurd (ground arith)
can_probe_vacant keys r (suc n) slot t e = elim (ℕ_discrete (keys slot) empty_key) [
  | yes free ↦ (or_slot t slot, ground arith)
  | no held ↦
      let (d, h) =
        can_probe_vacant keys r n (next_slot slot) (note_tombstone (keys slot) slot t)
          (ground arith) in
      (d, ground arith)
]

-- A tombstone over the found key leaves the key nowhere on its path.
pub Absent-removed :
    (keys : ℕ → ℕ) (r n slot s : ℕ)
    → tombstone ≢ r
    → IsPath keys r n slot
    → find_key keys r n slot ≡ some s
    → Absent (update keys s tombstone) r n slot
unfolding find_key
Absent-removed keys r zero slot s live h e = tt
Absent-removed keys r (suc n) slot s live h e = elim (ℕ_discrete (keys slot) r) [
  | yes here ↦ (ground arith, Absent-update keys s tombstone r live n (next_slot slot) (h.1 here))
  | no there ↦ (ground arith, Absent-removed keys r n (next_slot slot) s live h.2 (ground arith))
]
