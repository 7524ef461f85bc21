-- ===== src/Mold/Request.antt =====
-- The request packet of luv_moldudp64.hpp: what is formatted is parsed back.
use luv_flicker.Base.{ℕ, ◌^◌, ◌≤◌, ◌<◌, ◌≡◌, some, arith}
use luv_flicker.Itch.Bytes.{Memory}
use luv_flicker.Mold.{RequestPacket, format_request, parse_request, read_be64, read_be16, packet}

sequence-packet :
    (req : RequestPacket) (buffer : Memory)
    → req.sequence < 2 ^ 64
    → read_be64 (packet req buffer) 10 ≡ req.sequence
unfolding read_be64 packet
sequence-packet req buffer h = omega arith

count-packet :
    (req : RequestPacket) (buffer : Memory)
    → req.requested_count < 2 ^ 16
    → read_be16 (packet req buffer) 18 ≡ req.requested_count
unfolding read_be16 packet
count-packet req buffer h = omega arith

session-packet :
    (req : RequestPacket) (buffer : Memory) (i : ℕ) → i < 10 → packet req buffer i ≡ req.session i
unfolding packet
session-packet req buffer i h = ground arith

-- A request whose fields fit their types, formatted into a buffer of at least 20 bytes, is parsed
-- back from it: the same ten session characters, sequence number and count.
pub parse_request-format_request :
    (req : RequestPacket) (buffer : Memory) (size : ℕ)
    → req.sequence < 2 ^ 64
    → req.requested_count < 2 ^ 16
    → 20 ≤ size
    → (sent : Memory) × (received : RequestPacket) × (format_request req (some buffer) size
        ≡ some sent)
      × (parse_request (some sent) size ≡ some received)
      × ((i : ℕ) → i < 10 → received.session i ≡ req.session i)
      × (received.sequence ≡ req.sequence)
      × (received.requested_count ≡ req.requested_count)
unfolding format_request parse_request
parse_request-format_request req buffer size hs hc h = (
  packet req buffer,
  record {
    session = packet req buffer;
    sequence = read_be64 (packet req buffer) 10;
    requested_count = read_be16 (packet req buffer) 18;
  },
  ground arith,
  ground arith,
  session-packet req buffer,
  sequence-packet req buffer hs,
  count-packet req buffer hc,
)
