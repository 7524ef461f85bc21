-- ===== src/Itch/Agreement.antt =====
-- The decoder and the book agree on what a message is: luv_decode_itch.hpp against the checks of
-- `LOBEngine::process_unlocked` in luv_lob.hpp.
use luv_flicker.Base.{
  ℕ, ◌≡◌, inl, inr, Bool, true, false, ◌∙◌, ◌||◌, Option, none, some, if◌then◌else◌, ◌==◌, arith,
  Bool-cases,
}
use native.Mathlib.Decide.{ℕ_discrete}
use luv_flicker.Arena.{TickMsg}
use luv_flicker.Itch.Bytes.{Memory, load_ticker_key}
use luv_flicker.Itch.Symbols
use luv_flicker.Itch.Symbols.{SymbolTable}
use luv_flicker.Itch.Decode.{
  decode_add, decode_executed, decode_executed_price, decode_cancel, decode_delete, decode_replace,
  decode_trade, decode_cross, decode_trading_action, decode_reg_sho, decode_body, decode_itch,
  stamped,
}
use luv_flicker.Lob.State.{LobEngine, reject}
use luv_flicker.Lob.Handlers.{
  on_add_order, on_order_executed, on_order_cancel, on_order_delete, on_order_replace, on_trade,
  touch, process_unlocked,
}

-- The types that the book has a handler for; the decoder also delivers 'Q', 'H' and 'Y'.
abbrev pub has_handler : ℕ → Bool
has_handler t =
    t == b'A'
    || t == b'F'
    || t == b'E'
    || t == b'C'
    || t == b'X'
    || t == b'D'
    || t == b'U'
    || t == b'P'

-- The switch of `process_unlocked` with none of its checks.
abbrev pub handle : LobEngine → TickMsg → LobEngine
handle e tick =
    let t = tick.msg_type in
    if t == b'A' || t == b'F'
    then on_add_order e tick
    else if t == b'E' || t == b'C'
    then on_order_executed e tick
    else if t == b'X'
    then on_order_cancel e tick
    else if t == b'D'
    then on_order_delete e tick
    else if t == b'U'
    then on_order_replace e tick
    else if t == b'P'
    then on_trade e tick
    else reject e

-- The checks of the dispatcher make no difference for the tick.
abbrev Admits : LobEngine → TickMsg → Type 0
Admits e tick = process_unlocked e tick ≡ handle (touch e tick) tick

module _ (m : Memory) (len : ℕ) (symbols : SymbolTable) (e : LobEngine) (tick : TickMsg) where
  agree_add :
      Symbols.IsValid symbols
      → (m 0 == b'A' || m 0 == b'F') ≡ true
      → decode_add m len symbols (stamped m) ≡ (tick, true)
      → Admits e tick
  unfolding decode_add process_unlocked
  agree_add v t d = ground (arith, Symbols.lookup-IsValid symbols (load_ticker_key m 24) v)

  agree_executed : m 0 ≡ b'E' → decode_executed m len (stamped m) ≡ (tick, true) → Admits e tick
  unfolding decode_executed process_unlocked
  agree_executed t d = ground arith

  agree_executed_price :
      m 0 ≡ b'C' → decode_executed_price m len (stamped m) ≡ (tick, true) → Admits e tick
  unfolding decode_executed_price process_unlocked
  agree_executed_price t d = ground arith

  agree_cancel : m 0 ≡ b'X' → decode_cancel m len (stamped m) ≡ (tick, true) → Admits e tick
  unfolding decode_cancel process_unlocked
  agree_cancel t d = ground arith

  agree_delete : m 0 ≡ b'D' → decode_delete m len (stamped m) ≡ (tick, true) → Admits e tick
  unfolding decode_delete process_unlocked
  agree_delete t d = ground arith

  agree_replace : m 0 ≡ b'U' → decode_replace m len (stamped m) ≡ (tick, true) → Admits e tick
  unfolding decode_replace process_unlocked
  agree_replace t d = ground arith

  agree_trade :
      Symbols.IsValid symbols
      → m 0 ≡ b'P'
      → decode_trade m len symbols (stamped m) ≡ (tick, true)
      → Admits e tick
  unfolding decode_trade process_unlocked
  agree_trade v t d = ground (arith, Symbols.lookup-IsValid symbols (load_ticker_key m 24) v)

  -- The types that the book has no handler for.
  agree_cross :
      Symbols.IsValid symbols
      → m 0 ≡ b'Q'
      → decode_cross m len symbols (stamped m) ≡ (tick, true)
      → Admits e tick
  unfolding decode_cross process_unlocked
  agree_cross v t d = ground (arith, Symbols.lookup-IsValid symbols (load_ticker_key m 19) v)

  agree_trading_action :
      Symbols.IsValid symbols
      → m 0 ≡ b'H'
      → decode_trading_action m len symbols (stamped m) ≡ (tick, true)
      → Admits e tick
  unfolding decode_trading_action process_unlocked
  agree_trading_action v t d =
      ground (arith, Symbols.lookup-IsValid symbols (load_ticker_key m 11) v)

  agree_reg_sho :
      Symbols.IsValid symbols
      → m 0 ≡ b'Y'
      → decode_reg_sho m len symbols (stamped m) ≡ (tick, true)
      → Admits e tick
  unfolding decode_reg_sho process_unlocked
  agree_reg_sho v t d = ground (arith, Symbols.lookup-IsValid symbols (load_ticker_key m 11) v)

  agree_body :
      Symbols.IsValid symbols → decode_body m len symbols (stamped m) ≡ (tick, true) → Admits e tick
  unfolding decode_body
  agree_body v d = elim (Bool-cases (m 0 == b'A' || m 0 == b'F')) [
    | inl t ↦ agree_add v t (ground arith)
    | inr n ↦ elim (ℕ_discrete (m 0) b'E') [
      | yes t ↦ agree_executed t (ground arith)
      | no n1 ↦ elim (ℕ_discrete (m 0) b'C') [
        | yes t ↦ agree_executed_price t (ground arith)
        | no n2 ↦ elim (ℕ_discrete (m 0) b'X') [
          | yes t ↦ agree_cancel t (ground arith)
          | no n3 ↦ elim (ℕ_discrete (m 0) b'D') [
            | yes t ↦ agree_delete t (ground arith)
            | no n4 ↦ elim (ℕ_discrete (m 0) b'U') [
              | yes t ↦ agree_replace t (ground arith)
              | no n5 ↦ elim (ℕ_discrete (m 0) b'P') [
                | yes t ↦ agree_trade v t (ground arith)
                | no n6 ↦ elim (ℕ_discrete (m 0) b'Q') [
                  | yes t ↦ agree_cross v t (ground arith)
                  | no n7 ↦ elim (ℕ_discrete (m 0) b'H') [
                    | yes t ↦ agree_trading_action v t (ground arith)
                    | no n8 ↦ agree_reg_sho v (ground arith) (ground arith)
                  ]
                ]
              ]
            ]
          ]
        ]
      ]
    ]
  ]

-- With a ticker table whose indices are symbols of the book, a tick that the decoder accepts passes the checks of its
-- fields in `process_unlocked`: if its type has a handler, it is handed to that, with its time noted; if not (the
-- decoder's 'Q', 'H' and 'Y'), it is counted as rejected, with its time noted.
pub decode-process :
    (raw : Option Memory) (len : ℕ) (symbols : SymbolTable) (out : TickMsg) (e : LobEngine)
    {tick : TickMsg}
    → Symbols.IsValid symbols
    → decode_itch raw len symbols out ≡ (tick, true)
    → (has_handler tick.msg_type ≡ true → process_unlocked e tick ≡ handle (touch e tick) tick)
      × (has_handler tick.msg_type ≡ false → process_unlocked e tick ≡ reject (touch e tick))
unfolding decode_itch
decode-process none len symbols out e v d = absurd (ground arith)
decode-process (some m) len symbols out e {tick} v d =
    let admits = agree_body m len symbols e tick v (ground arith) in
    (λ known. admits, λ unknown. admits ∙ ground arith)
