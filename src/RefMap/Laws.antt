-- ===== src/RefMap/Laws.antt =====
-- What `OrderRefMap` shows: `location` as a finite map, the invariant of its probe paths, and the
-- empty table that `clear` and `init` give.
use luv_flicker.Base.{
  ℕ, zero, suc, fun_ext, sym, subst, ◌∙◌, update_ne, ◌<◌, ◌≡◌, ◌≢◌, ◌⊎◌, inl, inr, Option, none,
  some, update, arith, refl, true, false, Bool-cases, ap,
}
use luv_flicker.RefMap.{
  OrderRefMap, OrderLocation, capacity, max_probe_length, empty_key, tombstone, hash, find_key,
  next_slot, Probed, probe, location, refuses, clear, init, zero_location,
}
use luv_flicker.RefMap.Probe.{
  IsPath, Absent, find_key-Absent, keys-find_key, find_key-update, IsPath-update, Absent-IsPath,
}

-- A reference that the table can hold.
abbrev pub IsRef : ℕ → Type 0
IsRef q = (q ≢ empty_key) × (q ≢ tombstone)

-- On its probe path the reference stands once at most, and behind no empty slot.
unfoldable pub OnPath : (ℕ → ℕ) → ℕ → Type 0
OnPath keys q = IsPath keys q max_probe_length (hash q)

-- The invariant of the key array.
pub record IsValid (m : OrderRefMap) : Type 0 where
  pub paths : (q : ℕ) → IsRef q → OnPath m.keys q

-- Where the loop of `lookup` and the loop of `insert` end.
abbrev pub search_key : (ℕ → ℕ) → ℕ → Option ℕ
search_key keys q = find_key keys q max_probe_length (hash q)

abbrev pub probe_key : (ℕ → ℕ) → ℕ → Probed
probe_key keys q = probe keys q max_probe_length (hash q) none

pub hash_lt : (key : ℕ) → hash key < capacity
unfolding hash
hash_lt key = omega arith

pub Absent-empty : (q n slot : ℕ) → q ≢ empty_key → Absent (λ i. empty_key) q n slot
Absent-empty q zero slot h = tt
Absent-empty q (suc n) slot h = (λ e. h (sym e), Absent-empty q n (next_slot slot) h)

pub OnPath-empty : (q : ℕ) → q ≢ empty_key → OnPath (λ i. empty_key) q
unfolding OnPath
OnPath-empty q h =
    Absent-IsPath (λ i. empty_key) q max_probe_length (hash q)
      (Absent-empty q max_probe_length (hash q) h)

pub OnPath-update :
    (keys : ℕ → ℕ) (d key q : ℕ)
    → key ≢ q
    → key ≢ empty_key
    → OnPath keys q
    → OnPath (update keys d key) q
unfolding OnPath
OnPath-update keys d key q other live h =
    IsPath-update keys d key q other max_probe_length (hash q) live h

pub search_key-update :
    (keys : ℕ → ℕ) (d key q : ℕ)
    → key ≢ q
    → key ≢ empty_key
    → (keys d ≡ empty_key) ⊎ (keys d ≢ q)
    → q ≢ empty_key
    → OnPath keys q
    → search_key (update keys d key) q ≡ search_key keys q
unfolding OnPath
search_key-update keys d key q other live dead real h =
    find_key-update keys d key q other max_probe_length (hash q) live dead real h

pub location_refused : (m : OrderRefMap) (q : ℕ) → refuses m q ≡ true → location m q ≡ none
unfolding location
location_refused m q e = ground arith

pub location_search :
    (m : OrderRefMap) (q : ℕ)
    → refuses m q ≡ false
    → location m q ≡ elim (search_key m.keys q) [ none ↦ none | some slot ↦ some (m.values slot) ]
unfolding location
location_search m q e = ground arith

pub accepted-IsRef : (m : OrderRefMap) (q : ℕ) → refuses m q ≡ false → IsRef q
unfolding refuses
accepted-IsRef m q e = ground arith

-- A write of `key` and a value at a slot where `q` does not stand leaves the entry of `q`.
module _ (m : OrderRefMap) (d key q n : ℕ) (loc : OrderLocation) (other : IsRef q → key ≢ q)
    (live : key ≢ empty_key) (apart : IsRef q → m.keys d ≢ q) where
  abbrev pub written : OrderRefMap
  written = record m { keys = update m.keys d key; values = update m.values d loc; count = n }

  found_elsewhere :
      refuses m q ≡ false
      → OnPath m.keys q
      → (o : Option ℕ) → search_key m.keys q ≡ o
      → location written q ≡ location m q
  unfolding refuses
  found_elsewhere r h none e = rw (
    location_search written q r,
    location_search m q r,
    search_key-update m.keys d key q (other (accepted-IsRef m q r)) live
        (inr (apart (accepted-IsRef m q r))) (accepted-IsRef m q r).0 h,
    e,
  )
  found_elsewhere r h (some s) e =
      rw
        (
          location_search written q r,
          location_search m q r,
          search_key-update m.keys d key q (other (accepted-IsRef m q r)) live
              (inr (apart (accepted-IsRef m q r))) (accepted-IsRef m q r).0 h,
          e,
        )
        (ap some (
          update_ne m.values d loc s (λ same. apart (accepted-IsRef m q r) (
            subst (λ k. m.keys k ≡ q) same
              (keys-find_key m.keys q max_probe_length (hash q) s e)))))

  pub location_elsewhere : IsValid m → location written q ≡ location m q
  unfolding refuses
  location_elsewhere v = elim (Bool-cases (refuses m q)) [
    | inl r ↦ location_refused written q r ∙ sym (location_refused m q r)
    | inr r ↦ found_elsewhere r (v.paths q (accepted-IsRef m q r)) (search_key m.keys q) refl
  ]

pub update_same {ℓ} : {A : Type ℓ} (f : ℕ → A) (d : ℕ) (v : A) → f d ≡ v → update f d v ≡ f
update_same f d v e = fun_ext (λ j. ground arith)

-- After `clear` every lookup fails, and the table is valid.
pub clear-empty : (m : OrderRefMap) → ((q : ℕ) → location (clear m) q ≡ none) × IsValid (clear m)
unfolding clear
clear-empty m = (
  λ q. elim (Bool-cases (refuses (clear m) q)) [
    | inl no_entry ↦ location_refused (clear m) q no_entry
    | inr entry ↦
        rw (
          location_search (clear m) q entry,
          search_key_empty q (accepted-IsRef (clear m) q entry).0,
        )
  ],
  record { paths = λ q h. OnPath-empty q h.0 },
)
  where
    search_key_empty : (q : ℕ) → q ≢ empty_key → search_key (λ i. empty_key) q ≡ none
    search_key_empty q h =
        find_key-Absent (λ i. empty_key) q max_probe_length (hash q)
          (Absent-empty q max_probe_length (hash q) h)

-- `init` succeeds once on an unmapped table that mmap serves, and then every lookup fails and the
-- table is valid; a second `init` is refused and changes nothing.
pub init_once :
    (m : OrderRefMap)
    → m.mapped ≡ false
    → let (m', ok) = init m true in
      (ok ≡ true) × ((q : ℕ) → location m' q ≡ none) × IsValid m' × (init m' true ≡ (m', false))
unfolding init clear
init_once m e = rw e (
  refl,
  (clear-empty (record m { mapped = true; values = λ i. zero_location })).0,
  (clear-empty (record m { mapped = true; values = λ i. zero_location })).1,
  refl,
)
