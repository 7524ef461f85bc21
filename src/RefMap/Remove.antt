-- ===== src/RefMap/Remove.antt =====
-- `remove` of `OrderRefMap`, seen through `location`.
use luv_flicker.Base.{
  ℕ, sym, subst, ◌∙◌, ◌+◌, ◌-◌, ◌%◌, ◌^◌, ◌≡◌, inl, inr, Option, none, some, ◌==◌, if◌then◌else◌,
  update, arith, refl, false, Bool-cases, ap,
}
use native.Mathlib.Decide.{ℕ_discrete}
use luv_flicker.RefMap.{
  OrderRefMap, max_probe_length, tombstone, hash, lookup, location, remove_at, remove, refuses,
}
use luv_flicker.RefMap.Probe.{Absent, find_key-Absent, keys-find_key, Absent-IsPath, Absent-removed}
use luv_flicker.RefMap.Laws.{
  IsRef, OnPath, IsValid, search_key, OnPath-update, location_refused, location_search,
  accepted-IsRef, location_elsewhere, update_same,
}

removed_missing :
    (keys : ℕ → ℕ) (r s : ℕ)
    → IsRef r
    → OnPath keys r
    → search_key keys r ≡ some s
    → Absent (update keys s tombstone) r max_probe_length (hash r)
unfolding OnPath
removed_missing keys r s ref h e =
    Absent-removed keys r max_probe_length (hash r) s (λ same. ref.1 (sym same)) h e

removed_location :
    (m : OrderRefMap) (r s q : ℕ)
    → refuses m r ≡ false
    → IsValid m
    → search_key m.keys r ≡ some s
    → location (remove_at m (some s)) q ≡ (if q == r then none else location m q)
unfolding remove_at refuses
removed_location m r s q ok v e = elim (ℕ_discrete q r) [
  | yes same ↦
      rw
        (
          same,
          location_search (remove_at m (some s)) r ok,
          find_key-Absent (update m.keys s tombstone) r max_probe_length (hash r)
              (removed_missing m.keys r s ref (v.paths r ref) e),
        )
        (ground arith)
  | no other ↦ ground (
    arith,
    subst
        (λ f.
          location
            (record m {
              keys = update m.keys s tombstone;
              values = f;
              count = (m.count + 2 ^ 32 - 1) % 2 ^ 32;
            })
            q
          ≡ location m q)
        (update_same m.values s (m.values s) refl)
        (location_elsewhere m s tombstone q ((m.count + 2 ^ 32 - 1) % 2 ^ 32) (m.values s)
          (λ h same. h.1 (sym same)) (omega arith) (λ h same. other (sym same ∙ held)) v),
  )
]
  where
    held : m.keys s ≡ r
    held = keys-find_key m.keys r max_probe_length (hash r) s e

    ref : IsRef r
    ref = accepted-IsRef m r ok

removed-IsValid :
    (m : OrderRefMap) (r s : ℕ)
    → IsRef r
    → IsValid m
    → search_key m.keys r ≡ some s
    → IsValid (remove_at m (some s))
unfolding remove_at
removed-IsValid m r s ref v e = record {
  paths = λ q h. elim (ℕ_discrete q r) [
    | yes same ↦ rw same (
        unfold OnPath in
        Absent-IsPath (update m.keys s tombstone) r max_probe_length (hash r)
          (removed_missing m.keys r s ref (v.paths r ref) e))
    | no other ↦
        OnPath-update m.keys s tombstone q (λ same. h.1 (sym same)) (omega arith) (v.paths q h)
  ];
}

abbrev Removes : OrderRefMap → ℕ → OrderRefMap → Type 0
Removes m r m' = ((q : ℕ) → location m' q ≡ (if q == r then none else location m q)) × IsValid m'

-- A reference that is not found: nothing changes.
remove_none :
    (m : OrderRefMap) (r : ℕ)
    → IsValid m
    → lookup m r ≡ none
    → location m r ≡ none
    → Removes m r (remove m r)
unfolding remove remove_at
remove_none m r v e gone =
    rw (e, remove_at)
      (
        (λ q. elim (ℕ_discrete q r) [
          | yes same ↦ ground (arith, ap (location m) same)
          | no other ↦ ground arith
        ]),
        v,
      )

remove_search :
    (m : OrderRefMap) (r : ℕ)
    → IsValid m
    → refuses m r ≡ false
    → (o : Option ℕ) → search_key m.keys r ≡ o
    → Removes m r (remove m r)
unfolding remove
remove_search m r v ok none e =
    remove_none m r v (unfold lookup in ground arith) (rw (location_search m r ok, e))
remove_search m r v ok (some s) e =
    let there : lookup m r ≡ some s = unfold lookup in ground arith in
    rw there
      (λ q. removed_location m r s q ok v e, removed-IsValid m r s (accepted-IsRef m r ok) v e)

-- Removing a reference makes `location` give nothing there, leaves it unchanged at every other
-- reference, and keeps the table valid.
pub location-remove :
    (m : OrderRefMap) (r : ℕ)
    → IsValid m
    → ((q : ℕ) → location (remove m r) q ≡ (if q == r then none else location m q))
      × IsValid (remove m r)
unfolding lookup
location-remove m r v = elim (Bool-cases (refuses m r)) [
  | inl no_entry ↦ remove_none m r v (ground arith) (location_refused m r no_entry)
  | inr entry ↦ remove_search m r v entry (search_key m.keys r) refl
]
