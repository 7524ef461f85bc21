-- ===== src/Lob/Queries.antt =====
-- luv_lob.hpp, the queries of `LOBEngine`. An int64_t result is an integer, and the halved sum of
-- `mid_price` rounds towards zero. The shared locks are not modelled.
use luv_flicker.Base.{
  ℕ, zero, suc, ◌+◌, ◌-◌, ◌/◌, ℤ, pos, negsuc, ◌+ℤ◌, ◌-ℤ◌, ltb_ℤ, leb_ℤ, eqb_ℤ, Bool, true, false,
  ◌&&◌, ◌||◌, if◌then◌else◌, ◌==◌, leb, ltb,
}
use luv_flicker.Arena.Config
use luv_flicker.Lob.State.{LobEngine, level}

unfoldable pub best_bid_price : LobEngine → ℕ → ℤ
best_bid_price e sym =
    if leb Config.symbols sym
    then pos 0
    else if (e.metas sym).bid_levels == 0
    then pos 0
    else (level e sym 0 0).price

unfoldable pub best_ask_price : LobEngine → ℕ → ℤ
best_ask_price e sym =
    if leb Config.symbols sym
    then pos 0
    else if (e.metas sym).ask_levels == 0
    then pos 0
    else (level e sym 1 0).price

-- C++ integer division by two.
abbrev pub half : ℤ → ℤ
half (pos n) = pos (n / 2)
half (negsuc n) = pos 0 -ℤ pos ((n + 1) / 2)

unfoldable pub mid_price : LobEngine → ℕ → ℤ
mid_price e sym =
    let bid = best_bid_price e sym in
    let ask = best_ask_price e sym in
    if leb Config.symbols sym
    then pos 0
    else if eqb_ℤ bid (pos 0) || eqb_ℤ ask (pos 0)
    then pos 0
    else half (bid +ℤ ask)

unfoldable pub spread : LobEngine → ℕ → ℤ
spread e sym =
    let bid = best_bid_price e sym in
    let ask = best_ask_price e sym in
    if leb Config.symbols sym
    then pos 0
    else if eqb_ℤ bid (pos 0) || eqb_ℤ ask (pos 0)
    then pos 0
    else ask -ℤ bid

-- The loop of the two depth queries, over `n` levels from `i` on.
unfoldable pub sum_depth : LobEngine → ℕ → ℕ → ℕ → ℕ → ℤ → ℤ
sum_depth e sym side zero i total = total
sum_depth e sym side (suc n) i total =
    sum_depth e sym side n (suc i) (total +ℤ (level e sym side i).total_qty)

unfoldable pub bid_depth_qty : LobEngine → ℕ → ℕ → ℤ
unfolding sum_depth
bid_depth_qty e sym levels =
    let count = (e.metas sym).bid_levels in
    if leb Config.symbols sym
    then pos 0
    else sum_depth e sym 0 (if ltb levels count then levels else count) 0 (pos 0)

unfoldable pub ask_depth_qty : LobEngine → ℕ → ℕ → ℤ
unfolding sum_depth
ask_depth_qty e sym levels =
    let count = (e.metas sym).ask_levels in
    if leb Config.symbols sym
    then pos 0
    else sum_depth e sym 1 (if ltb levels count then levels else count) 0 (pos 0)

unfoldable pub is_crossed : LobEngine → ℕ → Bool
is_crossed e sym =
    let bid = best_bid_price e sym in
    let ask = best_ask_price e sym in
    if leb Config.symbols sym
    then false
    else ltb_ℤ (pos 0) bid && ltb_ℤ (pos 0) ask && leb_ℤ ask bid

unfoldable pub is_stale : LobEngine → ℕ → ℕ → ℕ → Bool
is_stale e sym now_ns timeout_ns =
    let last = (e.metas sym).last_timestamp_ns in
    if leb Config.symbols sym
    then true
    else if last == 0
    then false
    else ltb last now_ns && ltb timeout_ns (now_ns - last)

unfoldable pub last_update_time : LobEngine → ℕ → ℕ
last_update_time e sym = if leb Config.symbols sym then 0 else (e.metas sym).last_timestamp_ns
