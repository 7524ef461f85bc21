-- ===== src/Lob/Ladder/Insertion.antt =====
-- `insert_level_impl` on an ordered book, and what `find_level` finds there.
use luv_flicker.Base.{
  ℕ, ◌+◌, ◌-◌, ◌%◌, ◌^◌, ◌≤◌, ◌<◌, ◌≡◌, ◌≢◌, inl, inr, ℤ, none, if◌then◌else◌, ltb, leb, ◌==◌,
  arith, Bool-cases, ◌&&◌,
}
use native.Mathlib.Numerals.{add-one}
use luv_flicker.Arena.Config
use luv_flicker.Arena.{PriceLevel, level_index, reset}
use luv_flicker.Lob.State.{LobEngine, level, set_level, level_count, set_level_count}
use luv_flicker.Lob.Levels.{
  find_level, refresh_level_locations, move_levels, shift_levels, insert_pos, insert_level_impl,
}
use luv_flicker.Lob.Levels.Search.{search_level_complete, insert_pos_split, opened, Sorted-opened}
use luv_flicker.Lob.Ladder.{prices, IsOrdered}
use luv_flicker.Lob.Ladder.Writes.{
  set_level-prices, set_level_count-counts, level_count-metas, set_level_count-prices, refresh_same,
  IsOrdered-one,
}

module _ (e : LobEngine) (symbol side : ℕ) (price : ℤ) where
  abbrev count : ℕ
  count = level_count e symbol side

  abbrev place : ℕ
  place = insert_pos (prices e symbol side) side price count 0

  abbrev shifted_down : LobEngine
  shifted_down =
      refresh_level_locations (shift_levels e symbol side (place + 1) place (count - place)) symbol
        side (place + 1) count

  abbrev widened : LobEngine
  widened = if ltb place count then shifted_down else e

  abbrev fresh_level : PriceLevel
  fresh_level = record (reset (level widened symbol side place)) { price = price }

  abbrev inserted : LobEngine
  inserted =
      set_level_count (set_level widened symbol side place fresh_level) symbol side
        ((count + 1) % 2 ^ 16)

  place-le : place ≤ count
  place-le = omega (arith, (insert_pos_split (prices e symbol side) side price count 0).1)

  widened-metas : widened.metas ≡ e.metas
  unfolding shift_levels
  widened-metas = ground (
    arith,
    refresh_same (shift_levels e symbol side (place + 1) place (count - place)) symbol side
        (place + 1) count,
  )

  shifted_down-prices :
      (s i d : ℕ)
      → side ≤ 1
      → i ≤ 1
      → d < Config.levels_per_side
      → count < Config.levels_per_side
      → prices shifted_down s i d ≡ (
          if s == symbol && i == side && ltb place d && leb d count
          then prices e symbol side (d - 1)
          else prices e s i d)
  unfolding level shift_levels move_levels level_index
  shifted_down-prices s i d c k h m = ground (
    arith,
    place-le,
    refresh_same (shift_levels e symbol side (place + 1) place (count - place)) symbol side
        (place + 1) count,
  )

  widened-prices :
      (s i d : ℕ)
      → side ≤ 1
      → i ≤ 1
      → d < Config.levels_per_side
      → count < Config.levels_per_side
      → prices widened s i d ≡ (
          if s == symbol && i == side && ltb place d && leb d count
          then prices e symbol side (d - 1)
          else prices e s i d)
  widened-prices s i d c k h m = elim (Bool-cases (ltb place count)) [
    | inl a ↦ rw a (shifted_down-prices s i d c k h m)
    | inr b ↦ rw b (ground (arith, place-le))
  ]

  inserted-counts :
      (s i : ℕ)
      → side ≤ 1
      → i ≤ 1
      → count < Config.levels_per_side
      → level_count inserted s i
        ≡ (if s == symbol && i == side then count + 1 else level_count e s i)
  inserted-counts s i c k m = ground (
    arith,
    set_level_count-counts stored symbol side ((count + 1) % 2 ^ 16) s i c k,
    level_count-metas e stored s i (unfold set_level in widened-metas),
  )
    where
      stored : LobEngine
      stored = set_level widened symbol side place fresh_level

  inserted-prices :
      (s i d : ℕ)
      → side ≤ 1
      → i ≤ 1
      → count < Config.levels_per_side
      → d < Config.levels_per_side
      → d < level_count inserted s i
      → prices inserted s i d ≡ (
          if s == symbol && i == side
          then opened (prices e symbol side) place price d
          else prices e s i d)
  unfolding reset
  inserted-prices s i d c k m h b = ground (
    arith,
    place-le,
    set_level-prices widened symbol side place s i d fresh_level c k (omega (arith, place-le)) h,
    set_level_count-prices (set_level widened symbol side place fresh_level) symbol side
        ((count + 1) % 2 ^ 16) s i d,
    inserted-counts s i c k m,
    widened-prices s i d c k h m,
  )

-- `insert_level_impl` keeps the ladders ordered when the price is not there yet.
pub IsOrdered-insert_level :
    (e : LobEngine) (symbol side : ℕ) (price : ℤ)
    → side ≤ 1
    → ((d : ℕ) → d < level_count e symbol side → prices e symbol side d ≢ price)
    → IsOrdered e
    → IsOrdered (insert_level_impl e symbol side price).0
unfolding insert_level_impl
IsOrdered-insert_level e symbol side price c new v =
    elim (Bool-cases (leb Config.levels_per_side (level_count e symbol side))) [
      | inl full ↦ rw full v
      | inr room ↦
          let within : level_count e symbol side < Config.levels_per_side = ground arith in
          rw room (
            IsOrdered-one e (inserted e symbol side price) symbol side
              (level_count e symbol side + 1)
              (opened (prices e symbol side) (place e symbol side price) price)
              (λ s i k. inserted-counts e symbol side price s i c k within)
              (λ s i d k h b. inserted-prices e symbol side price s i d c k within h b)
              (omega arith)
              (rw add-one (
                Sorted-opened (prices e symbol side) side price (level_count e symbol side)
                  (v.sorted symbol side c) new))
              v)
    ]

-- `find_level` finds the level of a price exactly when there is one.
pub find_level-none :
    (e : LobEngine) (symbol side : ℕ) (price : ℤ)
    → side ≤ 1
    → IsOrdered e
    → find_level e symbol side price ≡ none
    → (d : ℕ) → d < level_count e symbol side
    → prices e symbol side d ≢ price
unfolding find_level
find_level-none e symbol side price c v h d k =
    search_level_complete (prices e symbol side) side price (level_count e symbol side) 0
      (level_count e symbol side) (v.sorted symbol side c) (omega arith) h d (omega arith) k
