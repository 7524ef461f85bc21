-- ===== src/Exec/Ouch.antt =====
-- luv_execution.hpp, `OuchPacketTemplates`: the packets that enter and replace orders. The bytes of a
-- packet are a function from offsets.
pub mod Fields
use luv_flicker.Base.{
  ℕ, ◌+◌, ◌-◌, ◌*◌, ◌/◌, ◌%◌, ◌^◌, Bool, ◌&&◌, ◌||◌, not, Option, none, some, if◌then◌else◌, ◌==◌,
  ltb, leb, update,
}
use luv_flicker.Arena.Config
use luv_flicker.Exec.Types.{OrderIntent, OrderReplaceIntent, buy, clamp_u32}

abbrev pub enter_order_len : ℕ
enter_order_len = 48

abbrev pub replace_order_len : ℕ
replace_order_len = 32

pub record OutboundPacket : Type 0 where
  pub len : ℕ
  pub bytes : ℕ → ℕ

unfoldable pub store_u32_be : (ℕ → ℕ) → ℕ → ℕ → ℕ → ℕ
store_u32_be bytes offset v =
    update
      (update (update (update bytes offset (v / 2 ^ 24 % 256)) (offset + 1) (v / 2 ^ 16 % 256))
        (offset + 2) (v / 2 ^ 8 % 256))
      (offset + 3) (v % 256)

-- `make_symbol`: the first eight bytes that "S%03u    " prints for a symbol of the arena.
unfoldable pub make_symbol : ℕ → ℕ → ℕ
make_symbol sym i =
    if i == 0
    then 83
    else if i == 1
    then 48 + sym / 100 % 10
    else if i == 2
    then 48 + sym / 10 % 10
    else if i == 3
    then 48 + sym % 10
    else 32

-- "LUV "
unfoldable pub firm : ℕ → ℕ
firm i = if i == 0 then 76 else if i == 1 then 85 else if i == 2 then 86 else 32

-- `init_template`: 'O', the side, the symbol, the firm, 'Y', 'A', 'N', 'N' and ' '.
unfoldable pub template : ℕ → ℕ → ℕ → ℕ
unfolding make_symbol firm
template sym side i =
    if i == 0
    then 79
    else if i == 5
    then if side == buy then 66 else 83
    else if leb 10 i && ltb i 18
    then make_symbol sym (i - 10)
    else if leb 26 i && ltb i 30
    then firm (i - 26)
    else if i == 30
    then 89
    else if i == 31
    then 65
    else if i == 32 || i == 37
    then 78
    else if i == 38
    then 32
    else 0

-- `memcpy(out.bytes, tmpl.data(), kEnterOrderLen)`
unfoldable pub copy_template : ℕ → ℕ → (ℕ → ℕ) → ℕ → ℕ
copy_template sym side bytes i = if ltb i enter_order_len then template sym side i else bytes i

-- `false` is `none`; the packet is untouched then.
unfoldable pub build_enter_order : Bool → OrderIntent → OutboundPacket → Option OutboundPacket
unfolding store_u32_be copy_template
build_enter_order initialised intent out =
    let copied = copy_template intent.symbol_idx (intent.side % 2) out.bytes in
    let token = store_u32_be copied 1 intent.client_order_id in
    let quantity = store_u32_be token 6 (clamp_u32 intent.qty) in
    let price = store_u32_be quantity 18 (clamp_u32 intent.price) in
    let done = store_u32_be price 22 intent.time_in_force in
    if not initialised || leb Config.symbols intent.symbol_idx
    then none
    else some (record { len = enter_order_len; bytes = done })

unfoldable pub build_replace_order :
    Bool → OrderReplaceIntent → OutboundPacket → Option OutboundPacket
unfolding store_u32_be
build_replace_order initialised intent out =
    let cleared = λ (i : ℕ). if ltb i 64 then 0 else out.bytes i in
    let existing = store_u32_be (update cleared 0 85) 1 intent.original_order_id in
    let replacement = store_u32_be existing 5 intent.replacement_order_id in
    let quantity = store_u32_be replacement 9 (clamp_u32 intent.new_qty) in
    let price = store_u32_be quantity 13 (clamp_u32 intent.new_price) in
    let done = update (store_u32_be price 17 intent.time_in_force) 21 89 in
    if not initialised || leb Config.symbols intent.symbol_idx
    then none
    else some (record { len = replace_order_len; bytes = done })
