-- ===== src/Lob/Ladder/Writes.antt =====
-- Writes to the book that keep the ladders ordered: a level written back with its price, a new
-- level count, the order map, and one ladder given anew.
use luv_flicker.Base.{ℕ, ◌≤◌, ◌<◌, ◌≡◌, ℤ, refl, if◌then◌else◌, ◌==◌, arith, ◌&&◌}
use luv_flicker.Arena.Config
use luv_flicker.Arena.{PriceLevel, level_index}
use luv_flicker.RefMap.{OrderRefMap}
use luv_flicker.Lob.State.{LobEngine, level, set_level, level_count, set_level_count}
use luv_flicker.Lob.Levels.{refresh_level_locations}
use luv_flicker.Lob.Levels.Search.{Sorted}
use luv_flicker.Lob.Ladder.{prices, IsOrdered, IsOrdered-same}

-- A level written back with its price keeps the ladders.
pub IsOrdered-set_level :
    (e : LobEngine) (symbol side d : ℕ) (lvl : PriceLevel)
    → lvl.price ≡ prices e symbol side d
    → IsOrdered e
    → IsOrdered (set_level e symbol side d lvl)
unfolding set_level level level_count
IsOrdered-set_level e symbol side d lvl h v =
    IsOrdered-same e (set_level e symbol side d lvl) (λ s i k. refl) (λ s i c k m. ground arith) v

-- The order map is no part of the ladders.
pub IsOrdered-order_map :
    (e : LobEngine) (m : OrderRefMap) → IsOrdered e → IsOrdered (record e { order_map = m })
unfolding level level_count
IsOrdered-order_map e m v =
    IsOrdered-same e (record e { order_map = m }) (λ s i k. refl) (λ s i c k h. refl) v

pub set_level-prices :
    (e : LobEngine) (symbol side depth s i d : ℕ) (lvl : PriceLevel)
    → side ≤ 1
    → i ≤ 1
    → depth < Config.levels_per_side
    → d < Config.levels_per_side
    → prices (set_level e symbol side depth lvl) s i d
      ≡ (if s == symbol && i == side && d == depth then lvl.price else prices e s i d)
unfolding set_level level level_index
set_level-prices e symbol side depth s i d lvl a b c k = ground arith

pub set_level_count-counts :
    (e : LobEngine) (symbol side n s i : ℕ)
    → side ≤ 1
    → i ≤ 1
    → level_count (set_level_count e symbol side n) s i
      ≡ (if s == symbol && i == side then n else level_count e s i)
unfolding set_level_count level_count
set_level_count-counts e symbol side n s i a b = ground arith

pub level_count-metas :
    (e e' : LobEngine) (s i : ℕ) → e'.metas ≡ e.metas → level_count e' s i ≡ level_count e s i
unfolding level_count
level_count-metas e e' s i h = rw h

pub set_level_count-prices :
    (e : LobEngine) (symbol side n s i d : ℕ)
    → prices (set_level_count e symbol side n) s i d ≡ prices e s i d
unfolding set_level_count level
set_level_count-prices e symbol side n s i d = refl

-- Refreshing the order map moves no level.
pub refresh_same :
    (e : LobEngine) (symbol side first last : ℕ)
    → let e' = refresh_level_locations e symbol side first last in
      (e'.lob_flat ≡ e.lob_flat) × (e'.metas ≡ e.metas)
unfolding refresh_level_locations
refresh_same e symbol side first last = ground arith

-- One ladder given anew, the others kept.
pub IsOrdered-one :
    (e e' : LobEngine) (symbol side n : ℕ) (p : ℕ → ℤ)
    → ((s i : ℕ)
        → i ≤ 1
        → level_count e' s i ≡ (if s == symbol && i == side then n else level_count e s i))
    → ((s i d : ℕ)
        → i ≤ 1
        → d < Config.levels_per_side
        → d < level_count e' s i
        → prices e' s i d ≡ (if s == symbol && i == side then p d else prices e s i d))
    → n ≤ Config.levels_per_side
    → Sorted side p n
    → IsOrdered e
    → IsOrdered e'
IsOrdered-one e e' symbol side n p counts ladder fits s v = record {
  depth = λ k i h. ground (arith, counts k i h, v.depth k i h);
  sorted = λ k i h a b lt m. ground (
    arith,
    counts k i h,
    v.depth k i h,
    ladder k i a h,
    ladder k i b h,
    s a b lt,
    v.sorted k i h a b lt,
  );
}
