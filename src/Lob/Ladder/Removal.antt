-- ===== src/Lob/Ladder/Removal.antt =====
-- `remove_level_if_empty` on an ordered book.
use luv_flicker.Base.{
  ℕ, ◌+◌, ◌-◌, ◌≤◌, ◌<◌, ◌≡◌, inl, inr, ap, ◌∙◌, if◌then◌else◌, ltb, leb, ◌==◌, ltb_ℤ, pos, arith,
  Bool-cases, ◌&&◌,
}
use luv_flicker.Arena.Config
use luv_flicker.Arena.{level_index, reset}
use luv_flicker.Lob.State.{LobEngine, level, set_level, level_count, set_level_count}
use luv_flicker.Lob.Levels.{
  refresh_level_locations, move_levels, shift_levels, remove_level_if_empty,
}
use luv_flicker.Lob.Levels.Search.{closed, Sorted-closed}
use luv_flicker.Lob.Ladder.{prices, IsOrdered}
use luv_flicker.Lob.Ladder.Writes.{
  set_level-prices, set_level_count-counts, level_count-metas, set_level_count-prices, refresh_same,
  IsOrdered-one,
}

module _ (e : LobEngine) (symbol side li : ℕ) where
  abbrev last : ℕ
  last = level_count e symbol side - 1

  abbrev shifted_up : LobEngine
  shifted_up =
      refresh_level_locations (shift_levels e symbol side li (li + 1) (last - li)) symbol side li
        (last - 1)

  shifted_up-prices :
      (s i d : ℕ)
      → side ≤ 1
      → i ≤ 1
      → d < Config.levels_per_side
      → last < Config.levels_per_side
      → prices shifted_up s i d ≡ (
          if s == symbol && i == side && leb li d && ltb d last
          then prices e symbol side (d + 1)
          else prices e s i d)
  unfolding level shift_levels move_levels level_index
  shifted_up-prices s i d c k h m = ground (
    arith,
    refresh_same (shift_levels e symbol side li (li + 1) (last - li)) symbol side li (last - 1),
  )

  abbrev removed : LobEngine
  removed = if ltb li last then shifted_up else e

  abbrev shortened : LobEngine
  shortened =
      set_level_count (set_level removed symbol side last (reset (level removed symbol side last)))
        symbol side last

  removed-same : (removed.metas ≡ e.metas)
  unfolding shift_levels
  removed-same = ground (
    arith,
    refresh_same (shift_levels e symbol side li (li + 1) (last - li)) symbol side li (last - 1),
  )

  removed-prices :
      (s i d : ℕ)
      → side ≤ 1
      → i ≤ 1
      → d < Config.levels_per_side
      → last < Config.levels_per_side
      → prices removed s i d ≡ (
          if s == symbol && i == side && leb li d && ltb d last
          then prices e symbol side (d + 1)
          else prices e s i d)
  removed-prices s i d c k h m = elim (Bool-cases (ltb li last)) [
    | inl a ↦ rw a (shifted_up-prices s i d c k h m)
    | inr b ↦ rw b (ground arith)
  ]

  shortened-counts :
      (s i : ℕ)
      → side ≤ 1
      → i ≤ 1
      → level_count shortened s i ≡ (if s == symbol && i == side then last else level_count e s i)
  shortened-counts s i c k =
      set_level_count-counts stored symbol side last s i c k
      ∙ ap (λ n. if s == symbol && i == side then last else n) (level_count-metas e stored s i same)
    where
      stored : LobEngine
      stored = set_level removed symbol side last (reset (level removed symbol side last))

      same : stored.metas ≡ e.metas
      same = unfold set_level in removed-same

  shortened-prices :
      (s i d : ℕ)
      → side ≤ 1
      → i ≤ 1
      → last < Config.levels_per_side
      → d < Config.levels_per_side
      → d < level_count shortened s i
      → prices shortened s i d
        ≡ (if s == symbol && i == side then closed (prices e symbol side) li d else prices e s i d)
  shortened-prices s i d c k m h b = ground (
    arith,
    set_level-prices removed symbol side last s i d (reset (level removed symbol side last)) c k m
        h,
    set_level_count-prices
        (set_level removed symbol side last (reset (level removed symbol side last))) symbol side
        last s i d,
    shortened-counts s i c k,
    removed-prices s i d c k h m,
  )

-- `remove_level_if_empty` keeps the ladders ordered, whichever level it is given.
pub IsOrdered-remove_level :
    (e : LobEngine) (symbol side li : ℕ)
    → side ≤ 1
    → IsOrdered e
    → IsOrdered (remove_level_if_empty e symbol side li)
unfolding remove_level_if_empty
IsOrdered-remove_level e symbol side li c v =
    elim (Bool-cases (ltb_ℤ (pos 0) (level e symbol side li).order_count)) [
      | inl kept ↦ rw kept v
      | inr empty ↦ elim (Bool-cases (level_count e symbol side == 0)) [
        | inl none_left ↦ rw (empty, none_left) v
        | inr some_left ↦
            let within : last e symbol side li < Config.levels_per_side =
              ground (arith, v.depth symbol side c) in
            rw (empty, some_left)
              (IsOrdered-one e (shortened e symbol side li) symbol side (last e symbol side li)
                (closed (prices e symbol side) li)
                (λ s i k. shortened-counts e symbol side li s i c k)
                (λ s i d k h b. shortened-prices e symbol side li s i d c k within h b)
                (omega arith)
                (Sorted-closed (prices e symbol side) side li (level_count e symbol side)
                  (v.sorted symbol side c))
                v)
      ]
    ]
