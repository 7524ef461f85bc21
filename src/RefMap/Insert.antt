-- ===== src/RefMap/Insert.antt =====
-- `insert` and the pre-flight `can_insert` of `OrderRefMap`, seen through `location`.
use luv_flicker.Base.{
  ℕ, sym, subst, ◌∙◌, ◌+◌, ◌%◌, ◌^◌, ◌≡◌, ◌≢◌, ◌⊎◌, inl, inr, none, some, ◌==◌, if◌then◌else◌,
  update, arith, refl, Bool, true, false, not, ◌||◌, Bool-cases, ap,
}
use native.Mathlib.Decide.{ℕ_discrete}
use luv_flicker.RefMap.{
  OrderRefMap, OrderLocation, max_probe_length, empty_key, tombstone, hash, Probed, present, vacant,
  exhausted, claim, insert_probed, insert, can_insert, location, refuses, valid_place,
}
use luv_flicker.RefMap.Probe.{
  Absent, find_key-Absent, keys-find_key, probe_present, probe-Absent, probe-Writes, Writes,
  IsPath-insert, can_probe_vacant,
}
use luv_flicker.RefMap.Laws.{
  IsRef, OnPath, IsValid, search_key, probe_key, hash_lt, OnPath-update, location_search,
  accepted-IsRef, location_elsewhere, update_same,
}

-- The slot that `insert` claims is dead, holds the key afterwards, and keeps the path in order.
record Claims (keys : ℕ → ℕ) (r d : ℕ) : Type 0 where
  missing : search_key keys r ≡ none
  dead : (keys d ≡ empty_key) ⊎ (keys d ≡ tombstone)
  found : search_key (update keys d r) r ≡ some d
  ordered : OnPath (update keys d r) r

probe_key-Claims :
    (keys : ℕ → ℕ) (r d : ℕ)
    → r ≢ empty_key
    → OnPath keys r
    → (probe_key keys r ≡ vacant d) ⊎ (probe_key keys r ≡ exhausted (some d))
    → Claims keys r d
unfolding OnPath
probe_key-Claims keys r d e0 h e = record {
  missing = find_key-Absent keys r max_probe_length (hash r) gone;
  dead = w.1;
  found = w.0;
  ordered = IsPath-insert keys r d max_probe_length (hash r) (hash_lt r) (omega arith) e0 gone w.0;
}
  where
    gone : Absent keys r max_probe_length (hash r)
    gone = probe-Absent keys r max_probe_length (hash r) none d (some d) h e

    w : Writes keys r max_probe_length (hash r) d
    w = probe-Writes keys r max_probe_length (hash r) d e0 e

-- What the three endings of `insert` do to the map that `location` shows.
location-claim :
    (m : OrderRefMap) (d r : ℕ) (loc : OrderLocation) (q : ℕ)
    → refuses m r ≡ false
    → IsValid m
    → Claims m.keys r d
    → location (claim m d r loc) q ≡ (if q == r then some loc else location m q)
unfolding claim refuses
location-claim m d r loc q ok v c = elim (ℕ_discrete q r) [
  | yes same ↦ rw (same, location_search (claim m d r loc) r ok, c.found) (ground arith)
  | no other ↦ ground (
    arith,
    accepted-IsRef m r ok,
    location_elsewhere m d r q ((m.count + 1) % 2 ^ 32) loc (λ h e. other (sym e))
        (accepted-IsRef m r ok).0 (λ h e. dead_apart h c.dead e) v,
  )
]
  where
    dead_apart : IsRef q → (m.keys d ≡ empty_key) ⊎ (m.keys d ≡ tombstone) → m.keys d ≡ q → ⊥
    dead_apart h dead e = ground arith

claim-IsValid :
    (m : OrderRefMap) (d r : ℕ) (loc : OrderLocation)
    → r ≢ empty_key
    → IsValid m
    → Claims m.keys r d
    → IsValid (claim m d r loc)
unfolding claim
claim-IsValid m d r loc e0 v c = record {
  paths = λ q h. elim (ℕ_discrete q r) [
    | yes e ↦ rw e c.ordered
    | no n ↦ OnPath-update m.keys d r q (λ e. n (sym e)) e0 (v.paths q h)
  ];
}

present_location :
    (m : OrderRefMap) (d r : ℕ) (loc : OrderLocation) (q : ℕ)
    → refuses m r ≡ false
    → IsValid m
    → search_key m.keys r ≡ some d
    → location (record m { values = update m.values d loc }) q
      ≡ (if q == r then some loc else location m q)
unfolding refuses
present_location m d r loc q ok v e = elim (ℕ_discrete q r) [
  | yes same ↦
      rw (same, location_search (record m { values = update m.values d loc }) r ok, e)
        (ground arith)
  | no other ↦ ground (
    arith,
    subst (λ k. location (record m { keys = k; values = update m.values d loc }) q ≡ location m q)
        (update_same m.keys d r held)
        (location_elsewhere m d r q m.count loc (λ h same. other (sym same))
          (accepted-IsRef m r ok).0 (λ h same. other (sym same ∙ held)) v),
  )
]
  where
    held : m.keys d ≡ r
    held = keys-find_key m.keys r max_probe_length (hash r) d e

-- What a successful `insert` has made of the map.
record Inserted (m : OrderRefMap) (r : ℕ) (loc : OrderLocation) (m' : OrderRefMap) : Type 0 where
  located : (q : ℕ) → location m' q ≡ (if q == r then some loc else location m q)
  valid : IsValid m'

claim-Inserted :
    (m : OrderRefMap) (d r : ℕ) (loc : OrderLocation) (m' : OrderRefMap)
    → refuses m r ≡ false
    → IsValid m
    → (probe_key m.keys r ≡ vacant d) ⊎ (probe_key m.keys r ≡ exhausted (some d))
    → m' ≡ claim m d r loc
    → Inserted m r loc m'
claim-Inserted m d r loc m' ok v e same =
    let ref : IsRef r = accepted-IsRef m r ok in
    let c : Claims m.keys r d = probe_key-Claims m.keys r d ref.0 (v.paths r ref) e in
    rw same (record {
      located = λ q. location-claim m d r loc q ok v c;
      valid = claim-IsValid m d r loc ref.0 v c;
    })

insert_probed-Inserted :
    (m : OrderRefMap) (r : ℕ) (loc : OrderLocation) (m' : OrderRefMap) (p : Probed)
    → refuses m r ≡ false
    → IsValid m
    → probe_key m.keys r ≡ p
    → insert_probed m r loc p ≡ (m', true)
    → Inserted m r loc m'
unfolding insert_probed
insert_probed-Inserted m r loc m' (present d) ok v e ins =
    rw (← ap (λ (p : OrderRefMap × Bool). p.0) ins) (record {
      located = λ q. present_location m d r loc q ok v (probe_present m.keys r _ _ none d e);
      valid = record { paths = v.paths };
    })
insert_probed-Inserted m r loc m' (vacant d) ok v e ins =
    claim-Inserted m d r loc m' ok v (inl e) (ground arith)
insert_probed-Inserted m r loc m' (exhausted none) ok v e ins = absurd (ground arith)
insert_probed-Inserted m r loc m' (exhausted (some d)) ok v e ins =
    claim-Inserted m d r loc m' ok v (inr e) (ground arith)

insert-Inserted :
    (m : OrderRefMap) (r : ℕ) (loc : OrderLocation) (m' : OrderRefMap)
    → IsValid m
    → insert m r loc ≡ (m', true)
    → Inserted m r loc m'
unfolding insert
insert-Inserted m r loc m' v ins = elim (Bool-cases (refuses m r || not (valid_place loc))) [
  | inl no_entry ↦ absurd (ground arith)
  | inr entry ↦
      insert_probed-Inserted m r loc m' (probe_key m.keys r) (ground arith) v refl (rw entry at ins)
]

-- After a successful `insert` into a valid table, `location` gives the new place at the inserted
-- reference and is unchanged at every other reference; the table is valid again.
pub location-insert :
    (m : OrderRefMap) (r : ℕ) (loc : OrderLocation) {m' : OrderRefMap}
    → IsValid m
    → insert m r loc ≡ (m', true)
    → ((q : ℕ) → location m' q ≡ (if q == r then some loc else location m q)) × IsValid m'
location-insert m r loc {m'} v ins =
    let done : Inserted m r loc m' = insert-Inserted m r loc m' v ins in (done.located, done.valid)

-- An `insert` that fails leaves the table as it was.
pub insert_failed :
    (m : OrderRefMap) (r : ℕ) (loc : OrderLocation) {m' : OrderRefMap}
    → insert m r loc ≡ (m', false)
    → m' ≡ m
unfolding insert insert_probed
insert_failed m r loc ins = ground arith

-- The pre-flight test: if it passes, the reference is not in the table, and inserting it at any
-- place that the book can represent succeeds.
pub can_insert_sound :
    (m : OrderRefMap) (r : ℕ) (loc : OrderLocation)
    → IsValid m
    → can_insert m r ≡ true
    → valid_place loc ≡ true
    → (location m r ≡ none) × ((insert m r loc).1 ≡ true)
unfolding can_insert insert insert_probed
can_insert_sound m r loc v e place =
    let ok : refuses m r ≡ false = ground arith in
    let (d, h) = can_probe_vacant m.keys r max_probe_length (hash r) none (ground arith) in
    let ref : IsRef r = accepted-IsRef m r ok in
    let c : Claims m.keys r d = probe_key-Claims m.keys r d ref.0 (v.paths r ref) (inl h) in
    (rw (location_search m r ok, c.missing), ground arith)
