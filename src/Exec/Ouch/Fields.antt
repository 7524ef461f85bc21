-- ===== src/Exec/Ouch/Fields.antt =====
-- What the OUCH packets of luv_execution.hpp hold.
use luv_flicker.Base.{
  ℕ, ◌+◌, ◌*◌, ◌/◌, ◌%◌, ◌^◌, ◌<◌, ◌≡◌, Bool, true, false, none, some, if◌then◌else◌, ◌==◌, leb,
  arith, refl, ℤ, pos, negsuc,
}
use luv_flicker.Arena.Config
use luv_flicker.Exec.Types.{OrderIntent, OrderReplaceIntent, buy, clamp_u32}
use luv_flicker.Exec.Ouch.{
  OutboundPacket, copy_template, template, build_enter_order, build_replace_order,
}

-- The 32-bit number at an offset, the first byte the highest.
abbrev pub field : (ℕ → ℕ) → ℕ → ℕ
field bytes i = bytes i * 2 ^ 24 + bytes (i + 1) * 2 ^ 16 + bytes (i + 2) * 2 ^ 8 + bytes (i + 3)

built_unless :
    (b : Bool) {packet : OutboundPacket}
    → b ≡ false
    → (if b then none else some packet) ≡ some packet
built_unless b h = rw h refl

bytes_of :
    (v : ℕ)
    → v < 2 ^ 32
    → v / 2 ^ 24 % 256 * 2 ^ 24 + v / 2 ^ 16 % 256 * 2 ^ 16 + v / 2 ^ 8 % 256 * 2 ^ 8 + v % 256 ≡ v
bytes_of v h = omega arith

clamp_u32-bound : (v : ℤ) → clamp_u32 v < 2 ^ 32
unfolding clamp_u32
clamp_u32-bound (pos n) = ground arith
clamp_u32-bound (negsuc n) = ground arith

-- An enter order packet of a ready gateway for a symbol of the arena is built, holds its length, type
-- and side, and gives back the token, the quantity, the price and the time in force, the quantity
-- and the price clamped to 32 bits.
pub build_enter_order-fields :
    (intent : OrderIntent) (out : OutboundPacket)
    → intent.symbol_idx < Config.symbols
    → intent.client_order_id < 2 ^ 32
    → intent.time_in_force < 2 ^ 32
    → (built : OutboundPacket) × (build_enter_order true intent out ≡ some built)
      × (built.len ≡ 48)
      × (built.bytes 0 ≡ 79)
      × (built.bytes 5 ≡ (if intent.side % 2 == buy then 66 else 83))
      × (field built.bytes 1 ≡ intent.client_order_id)
      × (field built.bytes 6 ≡ clamp_u32 intent.qty)
      × (field built.bytes 18 ≡ clamp_u32 intent.price)
      × (field built.bytes 22 ≡ intent.time_in_force)
unfolding build_enter_order template copy_template
build_enter_order-fields intent out s t f =
    let known : leb Config.symbols intent.symbol_idx ≡ false = ground arith in
    (
      _,
      built_unless _ known,
      refl,
      refl,
      refl,
      bytes_of intent.client_order_id t,
      bytes_of (clamp_u32 intent.qty) (clamp_u32-bound intent.qty),
      bytes_of (clamp_u32 intent.price) (clamp_u32-bound intent.price),
      bytes_of intent.time_in_force f,
    )

-- A replace packet of a ready gateway for a symbol of the arena is built, holds its length and type,
-- and gives back both tokens, the quantity, the price and the time in force, the quantity and the
-- price clamped to 32 bits.
pub build_replace_order-fields :
    (intent : OrderReplaceIntent) (out : OutboundPacket)
    → intent.symbol_idx < Config.symbols
    → intent.original_order_id < 2 ^ 32
    → intent.replacement_order_id < 2 ^ 32
    → intent.time_in_force < 2 ^ 32
    → (built : OutboundPacket) × (build_replace_order true intent out ≡ some built)
      × (built.len ≡ 32)
      × (built.bytes 0 ≡ 85)
      × (field built.bytes 1 ≡ intent.original_order_id)
      × (field built.bytes 5 ≡ intent.replacement_order_id)
      × (field built.bytes 9 ≡ clamp_u32 intent.new_qty)
      × (field built.bytes 13 ≡ clamp_u32 intent.new_price)
      × (field built.bytes 17 ≡ intent.time_in_force)
unfolding build_replace_order
build_replace_order-fields intent out s t u f =
    let known : leb Config.symbols intent.symbol_idx ≡ false = ground arith in
    (
      _,
      built_unless _ known,
      refl,
      refl,
      bytes_of intent.original_order_id t,
      bytes_of intent.replacement_order_id u,
      bytes_of (clamp_u32 intent.new_qty) (clamp_u32-bound intent.new_qty),
      bytes_of (clamp_u32 intent.new_price) (clamp_u32-bound intent.new_price),
      bytes_of intent.time_in_force f,
    )
