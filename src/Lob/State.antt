-- ===== src/Lob/State.antt =====
-- luv_lob.hpp, `SymbolMeta` and the members of `LOBEngine`. The arena's level slab is a function
-- from flat indices; `attached` says that `_arena` is not null. The counters are uint64_t.
use luv_flicker.Base.{ℕ, ◌+◌, ◌%◌, ◌^◌, Bool, true, false, not, if◌then◌else◌, ◌==◌, update}
use luv_flicker.Arena.{PriceLevel, level_index}
use luv_flicker.RefMap
use luv_flicker.RefMap.{OrderRefMap}

pub record SymbolMeta : Type 0 where
  pub bid_levels : ℕ
  pub ask_levels : ℕ
  pub last_timestamp_ns : ℕ

pub record Stats : Type 0 where
  pub adds : ℕ
  pub executes : ℕ
  pub cancels : ℕ
  pub deletes : ℕ
  pub replaces : ℕ
  pub trades : ℕ
  pub rejected : ℕ

pub record LobEngine : Type 0 where
  pub attached : Bool
  pub lob_flat : ℕ → PriceLevel
  pub order_map : OrderRefMap
  pub metas : ℕ → SymbolMeta
  pub stats : Stats

abbrev pub zero_meta : SymbolMeta
zero_meta = record { bid_levels = 0; ask_levels = 0; last_timestamp_ns = 0 }

abbrev pub zero_stats : Stats
zero_stats = record {
  adds = 0;
  executes = 0;
  cancels = 0;
  deletes = 0;
  replaces = 0;
  trades = 0;
  rejected = 0;
}

-- `init`: whether the arena is initialised and what mmap answers are arguments.
unfoldable pub init : LobEngine → Bool → Bool → LobEngine × Bool
init e arena_ready mmap_ok =
    let (m, mapped) = RefMap.init e.order_map mmap_ok in
    if not arena_ready
    then (e, false)
    else if not mapped
    then (record e { attached = true; order_map = m }, false)
    else (
      record e { attached = true; order_map = m; metas = λ s. zero_meta; stats = zero_stats },
      true,
    )

unfoldable pub teardown : LobEngine → LobEngine
teardown e = record e { attached = false; order_map = RefMap.teardown e.order_map }

-- `_arena->level(sym, side, depth)`, read and written.
unfoldable pub level : LobEngine → ℕ → ℕ → ℕ → PriceLevel
level e sym side depth = e.lob_flat (level_index sym side depth)

unfoldable pub set_level : LobEngine → ℕ → ℕ → ℕ → PriceLevel → LobEngine
set_level e sym side depth lvl = record e {
  lob_flat = update e.lob_flat (level_index sym side depth) lvl;
}

-- `level_count`, read and written.
unfoldable pub level_count : LobEngine → ℕ → ℕ → ℕ
level_count e sym side = if side == 0 then (e.metas sym).bid_levels else (e.metas sym).ask_levels

unfoldable pub set_level_count : LobEngine → ℕ → ℕ → ℕ → LobEngine
set_level_count e sym side n = record e { metas = update e.metas sym meta }
  where
    meta : SymbolMeta
    meta =
        if side == 0
        then record (e.metas sym) { bid_levels = n }
        else record (e.metas sym) { ask_levels = n }

-- `++_stat_…`
abbrev pub inc64 : ℕ → ℕ
inc64 n = (n + 1) % 2 ^ 64

unfoldable pub reject : LobEngine → LobEngine
reject e = record e { stats = record (e.stats) { rejected = inc64 e.stats.rejected } }
