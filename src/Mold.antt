-- ===== src/Mold.antt =====
-- luv_moldudp64.hpp: the MoldUDP64 header, the message block with its iterator, and the request
-- packet. A buffer is the memory from its pointer on, with its size; a null pointer is `none`.
mod Tests
pub mod Block
pub mod Request
use luv_flicker.Base.{
  ℕ, zero, suc, ◌+◌, ◌-◌, ◌*◌, ◌/◌, ◌%◌, ◌^◌, Bool, true, false, ◌||◌, Option, none, some,
  if◌then◌else◌, ◌==◌, ltb, leb, update,
}
use luv_flicker.Itch.Bytes.{Memory}

abbrev pub header_size : ℕ
header_size = 20

pub record Header : Type 0 where
  pub sequence : ℕ
  pub message_count : ℕ

unfoldable pub read_be16 : Memory → ℕ → ℕ
read_be16 m p = m p * 2 ^ 8 + m (p + 1)

-- The loop of `read_be64`; the low byte of the shifted value is free for the byte.
unfoldable pub read_bytes : Memory → ℕ → ℕ → ℕ → ℕ
read_bytes m zero p value = value
read_bytes m (suc n) p value = read_bytes m n (p + 1) ((value * 2 ^ 8) % 2 ^ 64 + m p)

unfoldable pub read_be64 : Memory → ℕ → ℕ
unfolding read_bytes
read_be64 m p = read_bytes m 8 p 0

unfoldable pub parse_header : Option Memory → ℕ → Option Header
parse_header none size = none
parse_header (some m) size =
    if ltb size header_size
    then none
    else some (record { sequence = read_be64 m 10; message_count = read_be16 m 18 })

-- The loop of `validate_message_block`, with the messages left to count.
unfoldable pub validate_from : Memory → ℕ → ℕ → ℕ → Bool
validate_from m size zero offset = offset == size
validate_from m size (suc n) offset =
    let length = read_be16 m offset in
    let rest = validate_from m size n (offset + 2 + length) in
    if ltb (size - offset) 2
    then false
    else if length == 0 || ltb (size - (offset + 2)) length
    then false
    else rest

unfoldable pub validate_message_block : Option Memory → ℕ → ℕ → Bool
validate_message_block none size message_count = false
validate_message_block (some m) size message_count =
    if ltb size header_size then false else validate_from m size message_count header_size

pub record MessageIterator : Type 0 where
  pub bytes : Option Memory
  pub size : ℕ
  pub offset : ℕ
  pub invalid : Bool

unfoldable pub iterate : Option Memory → ℕ → MessageIterator
iterate bytes size = record { bytes = bytes; size = size; offset = header_size; invalid = false }

-- `next` on a buffer: where the message starts and its length, or nothing.
next_in : MessageIterator → Memory → Option (ℕ × ℕ) × MessageIterator
next_in it m =
    let length = read_be16 m it.offset in
    let start = it.offset + 2 in
    if ltb it.size it.offset || ltb (it.size - it.offset) 2
    then (none, record it { invalid = true })
    else if length == 0 || ltb (it.size - start) length
    then (none, record it { offset = start; invalid = true })
    else (some (start, length), record it { offset = start + length })

unfoldable pub next : MessageIterator → Option (ℕ × ℕ) × MessageIterator
unfolding next_in
next it = if it.invalid then (none, it) else elim it.bytes [
  | none ↦ (none, it)
  | some m ↦ if it.offset == it.size then (none, it) else next_in it m
]

unfoldable pub valid : MessageIterator → Bool
valid it = if it.invalid then false else true

-- The session is ten characters.
pub record RequestPacket : Type 0 where
  pub session : Memory
  pub sequence : ℕ
  pub requested_count : ℕ

-- `for (i = 7; i >= 0; --i) buffer[10 + i] = (sequence >> ((7 - i) * 8)) & 0xFF`
unfoldable pub write_sequence : ℕ → Memory → ℕ → Memory
write_sequence sequence buffer zero = buffer
write_sequence sequence buffer (suc i) =
    write_sequence sequence (update buffer (10 + i) ((sequence / 2 ^ ((7 - i) * 8)) % 2 ^ 8)) i

-- What the buffer holds after the three writes.
unfoldable pub packet : RequestPacket → Memory → Memory
unfolding write_sequence
packet req buffer =
    let copied : Memory = λ i. if ltb i 10 then req.session i else buffer i in
    update
      (update (write_sequence req.sequence copied 8) 18 ((req.requested_count / 2 ^ 8) % 2 ^ 8)) 19
      (req.requested_count % 2 ^ 8)

-- The buffer after the call, or nothing where the function returns false.
unfoldable pub format_request : RequestPacket → Option Memory → ℕ → Option Memory
format_request req none size = none
format_request req (some buffer) size = if ltb size 20 then none else some (packet req buffer)

unfoldable pub parse_request : Option Memory → ℕ → Option RequestPacket
parse_request none size = none
parse_request (some m) size =
    if ltb size 20
    then none
    else some (record { session = m; sequence = read_be64 m 10; requested_count = read_be16 m 18 })
