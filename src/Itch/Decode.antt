-- ===== src/Itch/Decode.antt =====
-- luv_decode_itch.hpp, `decode_itch`, one function to a message type. `raw` is the memory from the
-- message on, or nothing for a null pointer; `out` is the output parameter, returned beside the
-- result. Log calls are left out.
use luv_flicker.Base.{
  ℕ, ◌+◌, ℤ, pos, Bool, true, false, not, ◌&&◌, ◌||◌, Option, none, some, if◌then◌else◌, ◌==◌, leb,
  ltb,
}
use luv_flicker.Arena.Config
use luv_flicker.Numeric.{is_valid_price, is_valid_quantity}
use luv_flicker.Arena.{TickMsg, zero_tick}
use luv_flicker.Itch.Bytes.{Memory, be16, be32, be64, be_timestamp48, load_ticker_key}
use luv_flicker.Itch.Symbols
use luv_flicker.Itch.Symbols.{SymbolTable, not_found}

-- `tick_flags`
abbrev pub buy : ℕ
buy = 0x01

abbrev pub printable : ℕ
printable = 0x02

abbrev pub cross : ℕ
cross = 0x04

abbrev pub halted : ℕ
halted = 0x08

abbrev pub short_sale_restricted : ℕ
short_sale_restricted = 0x10

-- `itch::minimum_length`, with the lengths of `itch`.
unfoldable pub minimum_length : ℕ → ℕ
minimum_length type =
    if type == b'A'
    then 36
    else if type == b'F'
    then 40
    else if type == b'E'
    then 31
    else if type == b'C'
    then 36
    else if type == b'X'
    then 23
    else if type == b'D'
    then 19
    else if type == b'U'
    then 35
    else if type == b'P'
    then 44
    else if type == b'Q'
    then 40
    else if type == b'H'
    then 25
    else if type == b'Y'
    then 20
    else 0

abbrev qty_at : Memory → ℕ → ℤ
qty_at m p = pos (be32 m p)

abbrev price_at : Memory → ℕ → ℤ
price_at m p = pos (be32 m p)

abbrev bad_qty : Memory → ℕ → Bool
bad_qty m p = not (is_valid_quantity (qty_at m p))

abbrev bad_price : Memory → ℕ → Bool
bad_price m p = not (is_valid_price (price_at m p))

abbrev ticker_at : SymbolTable → Memory → ℕ → ℕ
ticker_at symbols m p = Symbols.lookup symbols (load_ticker_key m p)

-- In each of these `out` is the tick with the type and the time stamp set.
unfoldable pub decode_add : Memory → ℕ → SymbolTable → TickMsg → TickMsg × Bool
decode_add m len symbols out =
    let sym_idx = ticker_at symbols m 24 in
    if ltb len (if m 0 == b'A' then 36 else 40)
    then (out, false)
    else if sym_idx == not_found
    then (out, false)
    else if be64 m 11 == 0
        || bad_qty m 20
        || bad_price m 32
        || (not (m 19 == b'B') && not (m 19 == b'S'))
    then (out, false)
    else (
      record out {
        symbol_idx = sym_idx;
        order_ref = be64 m 11;
        qty = qty_at m 20;
        price = price_at m 32;
        flags = if m 19 == b'B' then buy else 0;
      },
      true,
    )

-- The messages without a stock field write the stock locate before they check it.
abbrev located : Memory → TickMsg → TickMsg
located m out = record out { symbol_idx = be16 m 1 }

abbrev off_book : Memory → Bool
off_book m = leb Config.symbols (be16 m 1)

unfoldable pub decode_executed : Memory → ℕ → TickMsg → TickMsg × Bool
decode_executed m len out =
    if ltb len 31
    then (out, false)
    else if off_book m || be64 m 11 == 0 || bad_qty m 19
    then (located m out, false)
    else (
      record (located m out) {
        order_ref = be64 m 11;
        qty = qty_at m 19;
        match_num = be64 m 23;
        flags = printable;
      },
      true,
    )

unfoldable pub decode_executed_price : Memory → ℕ → TickMsg → TickMsg × Bool
decode_executed_price m len out =
    if ltb len 36
    then (out, false)
    else if off_book m
        || be64 m 11 == 0
        || bad_qty m 19
        || bad_price m 32
        || (not (m 31 == b'Y') && not (m 31 == b'N'))
    then (located m out, false)
    else (
      record (located m out) {
        order_ref = be64 m 11;
        qty = qty_at m 19;
        match_num = be64 m 23;
        price = price_at m 32;
        flags = if m 31 == b'Y' then printable else 0;
      },
      true,
    )

unfoldable pub decode_cancel : Memory → ℕ → TickMsg → TickMsg × Bool
decode_cancel m len out =
    if ltb len 23
    then (out, false)
    else if off_book m || be64 m 11 == 0 || bad_qty m 19
    then (located m out, false)
    else (record (located m out) { order_ref = be64 m 11; qty = qty_at m 19 }, true)

unfoldable pub decode_delete : Memory → ℕ → TickMsg → TickMsg × Bool
decode_delete m len out =
    if ltb len 19
    then (out, false)
    else if off_book m || be64 m 11 == 0
    then (located m out, false)
    else (record (located m out) { order_ref = be64 m 11 }, true)

-- The new reference goes into `match_num`.
unfoldable pub decode_replace : Memory → ℕ → TickMsg → TickMsg × Bool
decode_replace m len out =
    if ltb len 35
    then (out, false)
    else if off_book m
        || be64 m 11 == 0
        || be64 m 19 == 0
        || be64 m 11 == be64 m 19
        || bad_qty m 27
        || bad_price m 31
    then (located m out, false)
    else (
      record (located m out) {
        order_ref = be64 m 11;
        match_num = be64 m 19;
        qty = qty_at m 27;
        price = price_at m 31;
      },
      true,
    )

unfoldable pub decode_trade : Memory → ℕ → SymbolTable → TickMsg → TickMsg × Bool
decode_trade m len symbols out =
    let sym_idx = ticker_at symbols m 24 in
    if ltb len 44
    then (out, false)
    else if sym_idx == not_found
        || bad_qty m 20
        || bad_price m 32
        || (not (m 19 == b'B') && not (m 19 == b'S'))
    then (out, false)
    else (
      record out {
        symbol_idx = sym_idx;
        order_ref = be64 m 11;
        qty = qty_at m 20;
        price = price_at m 32;
        match_num = be64 m 36;
        flags = printable + (if m 19 == b'B' then buy else 0);
      },
      true,
    )

unfoldable pub decode_cross : Memory → ℕ → SymbolTable → TickMsg → TickMsg × Bool
decode_cross m len symbols out =
    let sym_idx = ticker_at symbols m 19 in
    let shares = be64 m 11 in
    if ltb len 40
    then (out, false)
    else if sym_idx == not_found || ltb 1_000_000_000 shares || bad_price m 27
    then (out, false)
    else (
      record out {
        symbol_idx = sym_idx;
        qty = pos shares;
        price = price_at m 27;
        match_num = be64 m 31;
        flags = printable + cross;
      },
      true,
    )

unfoldable pub decode_trading_action : Memory → ℕ → SymbolTable → TickMsg → TickMsg × Bool
decode_trading_action m len symbols out =
    let sym_idx = ticker_at symbols m 11 in
    if ltb len 25 then (out, false) else if sym_idx == not_found then (out, false) else (
      record out {
        symbol_idx = sym_idx;
        flags = if m 19 == b'H' || m 19 == b'P' then halted else 0;
      },
      true,
    )

unfoldable pub decode_reg_sho : Memory → ℕ → SymbolTable → TickMsg → TickMsg × Bool
decode_reg_sho m len symbols out =
    let sym_idx = ticker_at symbols m 11 in
    if ltb len 20 then (out, false) else if sym_idx == not_found then (out, false) else (
      record out {
        symbol_idx = sym_idx;
        flags = if m 19 == b'1' || m 19 == b'2' then short_sale_restricted else 0;
      },
      true,
    )

-- The switch over the message type.
unfoldable pub decode_body : Memory → ℕ → SymbolTable → TickMsg → TickMsg × Bool
decode_body m len symbols out =
    let type = m 0 in
    if type == b'A' || type == b'F'
    then decode_add m len symbols out
    else if type == b'E'
    then decode_executed m len out
    else if type == b'C'
    then decode_executed_price m len out
    else if type == b'X'
    then decode_cancel m len out
    else if type == b'D'
    then decode_delete m len out
    else if type == b'U'
    then decode_replace m len out
    else if type == b'P'
    then decode_trade m len symbols out
    else if type == b'Q'
    then decode_cross m len symbols out
    else if type == b'H'
    then decode_trading_action m len symbols out
    else if type == b'Y'
    then decode_reg_sho m len symbols out
    else (out, false)

-- Nanoseconds in a day.
abbrev pub day_ns : ℕ
day_ns = 86_400_000_000_000

-- The tick after the `memset` and the common header.
abbrev pub stamped : Memory → TickMsg
stamped m = record zero_tick { msg_type = m 0; timestamp = be_timestamp48 m 5 }

unfoldable pub decode_itch : Option Memory → ℕ → SymbolTable → TickMsg → TickMsg × Bool
decode_itch none len symbols out = (out, false)
decode_itch (some m) len symbols out =
    if ltb len 11
    then (out, false)
    else if not (minimum_length (m 0) == 0) && ltb len (minimum_length (m 0))
    then (out, false)
    else if leb day_ns (be_timestamp48 m 5)
    then (out, false)
    else decode_body m len symbols (stamped m)
