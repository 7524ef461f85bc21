-- ===== src/Itch/Tests.antt =====
-- Concrete ITCH messages, and the decoder's theorems at them.
use luv_flicker.Base.{
  false, ℕ, zero, suc, ◌≡◌, pos, true, some, List, [], ◌∷◌, refl, ltb, if◌then◌else◌,
}
use luv_flicker.Arena.{TickMsg, zero_tick, zeroed_level}
use luv_flicker.Itch.Bytes.{Memory, be16, be32, be64, be_timestamp48}
use luv_flicker.Itch.Symbols
use luv_flicker.Itch.Symbols.{SymbolTable, insert-IsValid}
use luv_flicker.Itch.Decode.{decode_itch, decode_body, decode_delete, minimum_length}
use luv_flicker.Itch.Agreement.{has_handler, handle, decode-process}
use luv_flicker.Lob.State.{reject, LobEngine, zero_meta, zero_stats}
use luv_flicker.Lob.Handlers.{touch, process_unlocked}

-- A buffer of the bytes, and 0 behind them.
abbrev bytes : List ℕ → Memory
bytes [] i = 0
bytes (b ∷ bs) zero = b
bytes (b ∷ bs) (suc i) = bytes bs i

abbrev free_table : SymbolTable
free_table = Symbols.clear (record { keys = λ i. 0; values = λ i. 0; count = 0 })

-- "Delete order 7", with locate code 3, at 258 ns.
abbrev delete_7 : Memory
delete_7 = bytes (b'D' ∷ 0 ∷ 3 ∷ 0 ∷ 0 ∷ 0 ∷ 0 ∷ 0 ∷ 0 ∷ 1 ∷ 2 ∷ 0 ∷ 0 ∷ 0 ∷ 0 ∷ 0 ∷ 0 ∷ 0 ∷ 7 ∷ [])

abbrev deletion : TickMsg
deletion = record zero_tick { msg_type = b'D'; symbol_idx = 3; timestamp = 258; order_ref = 7 }

decode_itch-delete_7 : decode_itch (some delete_7) 19 free_table zero_tick ≡ (deletion, true)
unfolding decode_itch decode_body decode_delete minimum_length be_timestamp48 be16 be32 be64
decode_itch-delete_7 = refl

-- A buffer that differs behind the message.
abbrev delete_7' : Memory
delete_7' i = if ltb i 19 then delete_7 i else 0xFF

-- An unknown type at 258 ns.
abbrev unknown : Memory
unknown = bytes (b'Z' ∷ 0 ∷ 3 ∷ 0 ∷ 0 ∷ 0 ∷ 0 ∷ 0 ∷ 0 ∷ 1 ∷ 2 ∷ [])

free_table-IsValid : Symbols.IsValid free_table
free_table-IsValid = Symbols.clear-IsValid _

abbrev book : LobEngine
book = record {
  attached = true;
  lob_flat = λ i. zeroed_level;
  order_map = record {
    mapped = true;
    keys = λ i. 0;
    values = λ i. record { symbol_idx = 0; side = 0; level_idx = 0; slot_idx = pos 0 };
    count = 0;
  };
  metas = λ s. zero_meta;
  stats = zero_stats;
}

decode-process_example :
    (has_handler deletion.msg_type ≡ true
      → process_unlocked book deletion ≡ handle (touch book deletion) deletion)
    × (has_handler deletion.msg_type ≡ false
        → process_unlocked book deletion ≡ reject (touch book deletion))
decode-process_example =
    decode-process (some delete_7) 19 free_table zero_tick book free_table-IsValid
      decode_itch-delete_7
