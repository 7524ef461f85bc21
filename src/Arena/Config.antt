-- ===== src/Arena/Config.antt =====
-- luv_arena.hpp, `Config`: the sizes of the slabs.
use luv_flicker.Base.{ℕ, ◌^◌}

abbrev pub symbols : ℕ
symbols = 512

abbrev pub levels_per_side : ℕ
levels_per_side = 1024

abbrev pub max_orders_per_level : ℕ
max_orders_per_level = 16

abbrev pub tick_capacity : ℕ
tick_capacity = 2 ^ 22

abbrev pub telem_capacity : ℕ
telem_capacity = 2 ^ 16
