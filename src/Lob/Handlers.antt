-- ===== src/Lob/Handlers.antt =====
-- luv_lob.hpp, the message handlers of `LOBEngine` and its dispatcher `process_unlocked`. The lock
-- of `process` makes the handlers run one after another; it is not modelled.
use luv_flicker.Base.{
  ◌≡◌, true, Bool-cases, inl, inr, not, ◌||◌, none, some, if◌then◌else◌, ◌==◌, leb, ltb, update,
  if_cases,
}
use luv_flicker.Arena.Config
use luv_flicker.Numeric.{is_valid_price, is_valid_quantity}
use luv_flicker.Arena.{TickMsg}
use luv_flicker.RefMap
use luv_flicker.RefMap.{OrderLocation}
use luv_flicker.Lob.State.{LobEngine, inc64, reject}
use luv_flicker.Lob.Orders.{
  find_order, reduce_order, delete_order, place_order, tick_side, count_add, count_replace,
}

unfoldable pub on_add_order : LobEngine → TickMsg → LobEngine
on_add_order e tick =
    let e1 = record e { stats = record (e.stats) { adds = inc64 e.stats.adds } } in
    elim (RefMap.lookup e1.order_map tick.order_ref) [
      | some entry ↦ reject e1
      | none ↦
          count_add
            (place_order e1 tick.symbol_idx (tick_side tick) tick.price tick.qty tick.order_ref)
    ]

unfoldable pub on_order_executed : LobEngine → TickMsg → LobEngine
on_order_executed e tick =
    reduce_order (record e { stats = record (e.stats) { executes = inc64 e.stats.executes } }) tick

unfoldable pub on_order_cancel : LobEngine → TickMsg → LobEngine
on_order_cancel e tick =
    reduce_order (record e { stats = record (e.stats) { cancels = inc64 e.stats.cancels } }) tick

unfoldable pub on_order_delete : LobEngine → TickMsg → LobEngine
on_order_delete e tick =
    let e1 = record e { stats = record (e.stats) { deletes = inc64 e.stats.deletes } } in
    elim (find_order e1 tick.order_ref) [
      | none ↦ e1
      | some loc ↦ delete_order e1 tick.order_ref loc
    ]

-- `match_num` carries the new reference.
unfoldable pub on_order_replace : LobEngine → TickMsg → LobEngine
on_order_replace e tick =
    let e1 = record e { stats = record (e.stats) { replaces = inc64 e.stats.replaces } } in
    elim (find_order e1 tick.order_ref) [
      | none ↦ reject e1
      | some loc ↦
          if not (RefMap.can_insert e1.order_map tick.match_num)
          then reject e1
          else count_replace (
              place_order (delete_order e1 tick.order_ref loc) loc.symbol_idx loc.side tick.price
                tick.qty tick.match_num)
    ]

unfoldable pub on_trade : LobEngine → TickMsg → LobEngine
on_trade e tick = record e { stats = record (e.stats) { trades = inc64 e.stats.trades } }

-- The dispatcher: the message types of luv_decode_itch.hpp, with the checks of each case.
abbrev pub dispatch : LobEngine → TickMsg → LobEngine
dispatch e tick =
    let t = tick.msg_type in
    let no_ref = tick.order_ref == 0 in
    let bad_qty = not (is_valid_quantity tick.qty) in
    let bad_price = not (is_valid_price tick.price) in
    if t == b'A' || t == b'F'
    then if no_ref || bad_qty || bad_price then reject e else on_add_order e tick
    else if t == b'E' || t == b'C'
    then if no_ref || bad_qty then reject e else on_order_executed e tick
    else if t == b'X'
    then if no_ref || bad_qty then reject e else on_order_cancel e tick
    else if t == b'D'
    then if no_ref then reject e else on_order_delete e tick
    else if t == b'U'
    then if no_ref
        || tick.match_num == 0
        || tick.order_ref == tick.match_num
        || bad_qty
        || bad_price
      then reject e
      else on_order_replace e tick
    else if t == b'P'
    then if bad_qty || bad_price then reject e else on_trade e tick
    else reject e

-- A property that the rejection gives and every handler, that of adds for an add only, is one of
-- the dispatcher's result.
pub dispatch_cases {ℓ} :
    (P : LobEngine → Type ℓ) (e : LobEngine) (tick : TickMsg)
    → P (reject e)
    → ((tick.msg_type == b'A' || tick.msg_type == b'F') ≡ true → P (on_add_order e tick))
    → P (on_order_executed e tick)
    → P (on_order_cancel e tick)
    → P (on_order_delete e tick)
    → P (on_order_replace e tick)
    → P (on_trade e tick)
    → P (dispatch e tick)
dispatch_cases P e tick refused a x c d u p =
    let t = tick.msg_type in
    let no_ref = tick.order_ref == 0 in
    let bad_qty = not (is_valid_quantity tick.qty) in
    let bad_price = not (is_valid_price tick.price) in
    elim (Bool-cases (t == b'A' || t == b'F')) [
      | inl h ↦ rw h (if_cases P (no_ref || bad_qty || bad_price) _ _ refused (a h))
      | inr h ↦ rw h (
          if_cases P (t == b'E' || t == b'C') _ _ (if_cases P (no_ref || bad_qty) _ _ refused x) (
            if_cases P (t == b'X') _ _ (if_cases P (no_ref || bad_qty) _ _ refused c) (
              if_cases P (t == b'D') _ _ (if_cases P no_ref _ _ refused d) (
                if_cases P (t == b'U') _ _
                  (if_cases P
                    (no_ref
                      || tick.match_num == 0
                      || tick.order_ref == tick.match_num
                      || bad_qty
                      || bad_price)
                    _ _ refused u)
                  (if_cases P (t == b'P') _ _ (if_cases P (bad_qty || bad_price) _ _ refused p)
                    refused)))))
    ]

unfoldable pub touch : LobEngine → TickMsg → LobEngine
touch e tick =
    if ltb 0 tick.timestamp
    then record e {
      metas =
          update e.metas tick.symbol_idx
            (record (e.metas tick.symbol_idx) { last_timestamp_ns = tick.timestamp });
    }
    else e

unfoldable pub process_unlocked : LobEngine → TickMsg → LobEngine
unfolding touch
process_unlocked e tick =
    if leb Config.symbols tick.symbol_idx then reject e else dispatch (touch e tick) tick
