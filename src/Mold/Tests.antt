-- ===== src/Mold/Tests.antt =====
-- Concrete packets of luv_moldudp64.hpp, and its theorems at them.
use luv_flicker.Base.{◌+◌, ◌≡◌, ◌↔◌, true, false, none, some, refl, arith, ◌==◌, if◌then◌else◌}
use luv_flicker.Itch.Bytes.{Memory}
use luv_flicker.Mold.{
  RequestPacket, validate_message_block, validate_from, iterate, next, valid, read_be16,
}
use luv_flicker.Mold.Block.{drain, standing, validate_message_block_iff}

-- A header of zeros, then a message of one byte and a message of two.
abbrev block : Memory
block i = if i == 21 then 1 else if i == 24 then 2 else 0

validate_message_block-block :
    (validate_message_block (some block) 27 2 ≡ true)
    × (validate_message_block (some block) 27 1 ≡ false)
    × (validate_message_block (some block) 26 2 ≡ false)
unfolding validate_message_block validate_from read_be16
validate_message_block-block = (refl, refl, refl)

validate_message_block_iff_example :
    ((validate_message_block (some block) 27 2 ≡ true)
      ↔ (drain 2 (iterate (some block) 27) ≡ some (standing block 27 27)))
    × ((next (standing block 27 27)).0 ≡ none)
    × (valid (next (standing block 27 27)).1 ≡ true)
validate_message_block_iff_example = validate_message_block_iff block 27 2 (omega arith)

abbrev request : RequestPacket
request = record {
  session = λ i. b'A' + i;
  sequence = 0x1234_5678_9ABC_DEF0;
  requested_count = 300;
}

abbrev blank : Memory
blank i = 0
