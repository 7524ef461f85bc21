-- ===== src/Lob/Ladder.antt =====
-- The price ladders of `LOBEngine`: every operation keeps the prices of each side of each symbol in
-- order, none twice. The children treat the operations on levels and the message handlers.
pub mod Best
pub mod Writes
pub mod Removal
pub mod Insertion
pub mod Orders
pub mod Messages
use luv_flicker.Base.{ℕ, ◌+◌, ◌≤◌, ◌<◌, ◌≡◌, ℤ, refl, arith}
use luv_flicker.Arena.Config
use luv_flicker.Arena.{level_index}
use luv_flicker.Lob.State.{LobEngine, level, level_count}
use luv_flicker.Lob.Levels.Search.{Sorted}

abbrev pub prices : LobEngine → ℕ → ℕ → ℕ → ℤ
prices e symbol side depth = (level e symbol side depth).price

-- No side holds more levels than the slab has, and each ladder is sorted.
pub record IsOrdered (e : LobEngine) : Type 0 where
  pub depth : (symbol side : ℕ) → side ≤ 1 → level_count e symbol side ≤ Config.levels_per_side
  pub sorted :
      (symbol side : ℕ) → side ≤ 1 → Sorted side (prices e symbol side) (level_count e symbol side)

-- Inside the slab a place belongs to one symbol, side and depth.
pub level_index_inj :
    (s s' side side' d d' : ℕ)
    → side ≤ 1
    → side' ≤ 1
    → d < Config.levels_per_side
    → d' < Config.levels_per_side
    → level_index s side d ≡ level_index s' side' d'
    → (s ≡ s') × (side ≡ side') × (d ≡ d')
unfolding level_index
level_index_inj s s' side side' d d' a b c c' e = omega arith

-- What keeps counts and prices keeps the order.
pub IsOrdered-same :
    (e e' : LobEngine)
    → ((symbol side : ℕ) → side ≤ 1 → level_count e' symbol side ≡ level_count e symbol side)
    → ((symbol side d : ℕ)
        → side ≤ 1
        → d < Config.levels_per_side
        → prices e' symbol side d ≡ prices e symbol side d)
    → IsOrdered e
    → IsOrdered e'
IsOrdered-same e e' counts same v = record {
  depth = λ s i k. rw (counts s i k) (v.depth s i k);
  sorted = λ s i k a b h m.
      rw
        (
          same s i a k (omega (arith, counts s i k, v.depth s i k)),
          same s i b k (omega (arith, counts s i k, v.depth s i k)),
        )
        (v.sorted s i k a b h (omega (arith, counts s i k)));
}
