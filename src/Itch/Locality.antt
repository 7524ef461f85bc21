-- ===== src/Itch/Locality.antt =====
-- `decode_itch` reads inside the message: its result depends on the first `len` bytes only.
use luv_flicker.Base.{ℕ, ◌+◌, ◌<◌, ◌≡◌, false, some, leb, arith}
use native.Mathlib.Decide.{dec_lt}
use luv_flicker.Arena.{TickMsg}
use luv_flicker.Itch.Bytes.{Memory, be16, be32, be64, be_timestamp48, load_ticker_key}
use luv_flicker.Itch.Symbols.{SymbolTable}
use luv_flicker.Itch.Decode.{
  decode_add, decode_executed, decode_executed_price, decode_cancel, decode_delete, decode_replace,
  decode_trade, decode_cross, decode_trading_action, decode_reg_sho, decode_body, decode_itch,
  stamped, minimum_length,
}

module _ (m m' : Memory) (len : ℕ) (symbols : SymbolTable)
    (same : (i : ℕ) → i < len → m i ≡ m' i) where
  be16-same : (p : ℕ) → p + 1 < len → be16 m p ≡ be16 m' p
  unfolding be16
  be16-same p h = rw (same p (omega arith), same (p + 1) (omega arith))

  be32-same : (p : ℕ) → p + 3 < len → be32 m p ≡ be32 m' p
  unfolding be32
  be32-same p h = rw (
    same p (omega arith),
    same (p + 1) (omega arith),
    same (p + 2) (omega arith),
    same (p + 3) (omega arith),
  )

  be64-same : (p : ℕ) → p + 7 < len → be64 m p ≡ be64 m' p
  unfolding be64
  be64-same p h = ground (arith, be32-same p (omega arith), be32-same (p + 4) (omega arith))

  timestamp-same : (p : ℕ) → p + 5 < len → be_timestamp48 m p ≡ be_timestamp48 m' p
  unfolding be_timestamp48
  timestamp-same p h = ground (arith, be16-same p (omega arith), be32-same (p + 2) (omega arith))

  ticker-same : (p : ℕ) → p + 7 < len → load_ticker_key m p ≡ load_ticker_key m' p
  unfolding load_ticker_key
  ticker-same p h = rw (
    same p (omega arith),
    same (p + 1) (omega arith),
    same (p + 2) (omega arith),
    same (p + 3) (omega arith),
    same (p + 4) (omega arith),
    same (p + 5) (omega arith),
    same (p + 6) (omega arith),
    same (p + 7) (omega arith),
  )

  add-same :
      (out : TickMsg) → 0 < len → decode_add m len symbols out ≡ decode_add m' len symbols out
  unfolding decode_add
  add-same out h = elim (dec_lt len 36) [
    | yes short ↦ ground (arith, same 0 h)
    | no long ↦ rw (
      same 0 h,
      same 19 (omega arith),
      be64-same 11 (omega arith),
      be32-same 20 (omega arith),
      be32-same 32 (omega arith),
      ticker-same 24 (omega arith),
    )
  ]

  executed-same : (out : TickMsg) → decode_executed m len out ≡ decode_executed m' len out
  unfolding decode_executed
  executed-same out = elim (dec_lt len 31) [
    | yes short ↦ ground arith
    | no long ↦ rw (
      be16-same 1 (omega arith),
      be64-same 11 (omega arith),
      be32-same 19 (omega arith),
      be64-same 23 (omega arith),
    )
  ]

  executed_price-same :
      (out : TickMsg) → decode_executed_price m len out ≡ decode_executed_price m' len out
  unfolding decode_executed_price
  executed_price-same out = elim (dec_lt len 36) [
    | yes short ↦ ground arith
    | no long ↦ rw (
      be16-same 1 (omega arith),
      be64-same 11 (omega arith),
      be32-same 19 (omega arith),
      be32-same 32 (omega arith),
      be64-same 23 (omega arith),
      same 31 (omega arith),
    )
  ]

  cancel-same : (out : TickMsg) → decode_cancel m len out ≡ decode_cancel m' len out
  unfolding decode_cancel
  cancel-same out = elim (dec_lt len 23) [
    | yes short ↦ ground arith
    | no long ↦
        rw (be16-same 1 (omega arith), be64-same 11 (omega arith), be32-same 19 (omega arith))
  ]

  delete-same : (out : TickMsg) → decode_delete m len out ≡ decode_delete m' len out
  unfolding decode_delete
  delete-same out = elim (dec_lt len 19) [
    | yes short ↦ ground arith
    | no long ↦ rw (be16-same 1 (omega arith), be64-same 11 (omega arith))
  ]

  replace-same : (out : TickMsg) → decode_replace m len out ≡ decode_replace m' len out
  unfolding decode_replace
  replace-same out = elim (dec_lt len 35) [
    | yes short ↦ ground arith
    | no long ↦ rw (
      be16-same 1 (omega arith),
      be64-same 11 (omega arith),
      be64-same 19 (omega arith),
      be32-same 27 (omega arith),
      be32-same 31 (omega arith),
    )
  ]

  trade-same : (out : TickMsg) → decode_trade m len symbols out ≡ decode_trade m' len symbols out
  unfolding decode_trade
  trade-same out = elim (dec_lt len 44) [
    | yes short ↦ ground arith
    | no long ↦ rw (
      same 19 (omega arith),
      be64-same 11 (omega arith),
      be32-same 20 (omega arith),
      be32-same 32 (omega arith),
      be64-same 36 (omega arith),
      ticker-same 24 (omega arith),
    )
  ]

  cross-same : (out : TickMsg) → decode_cross m len symbols out ≡ decode_cross m' len symbols out
  unfolding decode_cross
  cross-same out = elim (dec_lt len 40) [
    | yes short ↦ ground arith
    | no long ↦ rw (
      be64-same 11 (omega arith),
      be32-same 27 (omega arith),
      be64-same 31 (omega arith),
      ticker-same 19 (omega arith),
    )
  ]

  trading_action-same :
      (out : TickMsg)
      → decode_trading_action m len symbols out ≡ decode_trading_action m' len symbols out
  unfolding decode_trading_action
  trading_action-same out = elim (dec_lt len 25) [
    | yes short ↦ ground arith
    | no long ↦ rw (same 19 (omega arith), ticker-same 11 (omega arith))
  ]

  reg_sho-same :
      (out : TickMsg) → decode_reg_sho m len symbols out ≡ decode_reg_sho m' len symbols out
  unfolding decode_reg_sho
  reg_sho-same out = elim (dec_lt len 20) [
    | yes short ↦ ground arith
    | no long ↦ rw (same 19 (omega arith), ticker-same 11 (omega arith))
  ]

  body-same :
      (out : TickMsg) → 0 < len → decode_body m len symbols out ≡ decode_body m' len symbols out
  unfolding decode_body
  body-same out h = rw (
    same 0 h,
    add-same out h,
    executed-same out,
    executed_price-same out,
    cancel-same out,
    delete-same out,
    replace-same out,
    trade-same out,
    cross-same out,
    trading_action-same out,
    reg_sho-same out,
  )

-- The decoder never looks past the message: two buffers that agree on the first `len` bytes decode
-- to the same result and the same output tick.
pub decode_itch_local :
    (m m' : Memory) (len : ℕ) (symbols : SymbolTable) (out : TickMsg)
    → ((i : ℕ) → i < len → m i ≡ m' i)
    → decode_itch (some m) len symbols out ≡ decode_itch (some m') len symbols out
unfolding decode_itch
decode_itch_local m m' len symbols out same = elim (dec_lt len 11) [
  | yes short ↦ ground arith
  | no long ↦ rw (
    same 0 (omega arith),
    timestamp-same m m' len symbols same 5 (omega arith),
    body-same m m' len symbols same (stamped m') (omega arith),
  )
]

-- What the output tick is when a message of an unknown type is skipped: its type and time stamp,
-- with every other field cleared, and not what it was before.
pub decode_itch_skip :
    (m : Memory) (len : ℕ) (symbols : SymbolTable) (out : TickMsg)
    → ¬ (len < 11)
    → minimum_length (m 0) ≡ 0
    → leb 86_400_000_000_000 (be_timestamp48 m 5) ≡ false
    → decode_itch (some m) len symbols out ≡ (stamped m, false)
unfolding decode_itch decode_body minimum_length
decode_itch_skip m len symbols out long unknown in_day = ground arith
