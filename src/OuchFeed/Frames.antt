-- ===== src/OuchFeed/Frames.antt =====
-- What `Parser::parse` of luv_ouch.hpp reads: the frames of the formats its comment gives, and no byte
-- behind them.
use luv_flicker.Base.{
  ℕ, ◌+◌, ◌-◌, ◌*◌, ◌/◌, ◌%◌, ◌^◌, ◌<◌, ◌≤◌, pos, leb_ℤ, ◌≡◌, refl, ◌∙◌, true, false, ◌||◌, some,
  if◌then◌else◌, ◌==◌, ltb, leb, arith,
}
use luv_flicker.Itch.Bytes.{Memory}
use luv_flicker.OuchFeed.{
  Event, EventType, be32, be64, be64_loop, parse_body, parse, max_body_length, with_consumed,
}

-- The first byte of a body and its length.
abbrev pub tag : EventType → ℕ
tag EventType.accepted = 65
tag EventType.rejected = 74
tag EventType.executed = 69
tag EventType.canceled = 67
tag EventType.replaced = 85

abbrev pub body_length : EventType → ℕ
body_length EventType.accepted = 9
body_length EventType.rejected = 10
body_length EventType.executed = 13
body_length EventType.canceled = 9
body_length EventType.replaced = 17

-- The event of a message: the fields that the format of its kind has no bytes for are 0.
abbrev pub message : EventType → (order_id quantity price reason : ℕ) → Event
message kind order_id quantity price reason = record {
  kind = kind;
  order_id = order_id;
  quantity = pos (if ltb (body_length kind) 13 then 0 else quantity);
  price = pos (if ltb (body_length kind) 17 then 0 else price);
  reason = if body_length kind == 10 then reason else 0;
}

-- The byte `k` places above the lowest.
abbrev byte : ℕ → ℕ → ℕ
byte v k = v / 2 ^ (8 * k) % 256

-- A frame as the comment of the parser lays it out, in front of other bytes: the length, the tag, the
-- order id at 1, the reason or the quantity at 9 and the price at 13.
unfoldable pub frame : EventType → (order_id quantity price reason : ℕ) → Memory → Memory
frame kind order_id quantity price reason rest i =
    if leb (body_length kind + 2) i
    then rest i
    else if i == 0
    then 0
    else if i == 1
    then body_length kind
    else if i == 2
    then tag kind
    else if ltb i 11
    then byte order_id (10 - i)
    else if body_length kind == 10
    then reason
    else if ltb i 15
    then byte quantity (14 - i)
    else byte price (18 - i)

-- Four and eight bytes make up a number again.
bytes_of32 :
    (v : ℕ) → v < 2 ^ 32 → byte v 3 * 2 ^ 24 + byte v 2 * 2 ^ 16 + byte v 1 * 2 ^ 8 + byte v 0 ≡ v
bytes_of32 v h = omega arith

-- The two halves of a 64-bit number, each of four bytes.
bytes_of64 :
    (v : ℕ)
    → v < 2 ^ 64
    → (byte v 7 * 2 ^ 24 + byte v 6 * 2 ^ 16 + byte v 5 * 2 ^ 8 + byte v 4 ≡ v / 2 ^ 32)
      × (byte v 3 * 2 ^ 24 + byte v 2 * 2 ^ 16 + byte v 1 * 2 ^ 8 + byte v 0 ≡ v % 2 ^ 32)
bytes_of64 v h = (omega arith, omega arith)

be64-halves :
    (m : Memory) → ((i : ℕ) → i < 8 → m (i + 3) < 256) → be64 m 3 ≡ be32 m 3 * 2 ^ 32 + be32 m 7
unfolding be64 be64_loop be32
be64-halves m small = omega (
  arith,
  small 0 (omega arith),
  small 1 (omega arith),
  small 2 (omega arith),
  small 3 (omega arith),
  small 4 (omega arith),
  small 5 (omega arith),
  small 6 (omega arith),
  small 7 (omega arith),
)

be64-bytes : (v : ℕ) → v < 2 ^ 64 → be64 (λ i. byte v (10 - i)) 3 ≡ v
unfolding be32
be64-bytes v h =
    let halves = be64-halves (λ i. byte v (10 - i)) (λ i k. omega arith) in
    let parts = bytes_of64 v h in omega (arith, halves, parts)

parse-good :
    (m : Memory) (length n id : ℕ)
    → m 0 ≡ 0
    → m 1 ≡ n
    → 9 ≤ n
    → n ≤ 17
    → n + 2 ≤ length
    → be64 m 3 ≡ id
    → 0 < id
    → parse m length ≡ with_consumed (parse_body m 2 n id) n
unfolding parse
parse-good m length n id zero_first one low high fits eq some_id =
    let whole : m 0 * 2 ^ 8 + m 1 ≡ n = omega (arith, zero_first, one) in
    let enough : ltb length 2 ≡ false = ground arith in
    let in_range : ltb n 9 || ltb max_body_length n || ltb length (n + 2) ≡ false = ground arith in
    let named : id == 0 ≡ false = ground arith in
    rw (parse, whole, enough, in_range, eq, named) refl

module _ (id quantity price reason : ℕ) (rest : Memory) (named : 0 < id) (small : id < 2 ^ 64) where
  frame-quantity :
      (kind : EventType)
      → leb 13 (body_length kind) ≡ true
      → quantity < 2 ^ 32
      → be32 (frame kind id quantity price reason rest) 11 ≡ quantity
  unfolding be32 frame
  frame-quantity EventType.accepted h k = absurd (ground (arith, h))
  frame-quantity EventType.rejected h k = absurd (ground (arith, h))
  frame-quantity EventType.executed h k = bytes_of32 quantity k
  frame-quantity EventType.canceled h k = absurd (ground (arith, h))
  frame-quantity EventType.replaced h k = bytes_of32 quantity k

  frame-price :
      price < 2 ^ 32 → be32 (frame EventType.replaced id quantity price reason rest) 15 ≡ price
  unfolding be32 frame
  frame-price k = bytes_of32 price k

  frame-id : (kind : EventType) → be64 (frame kind id quantity price reason rest) 3 ≡ id
  unfolding frame be64 be64_loop
  frame-id EventType.accepted = be64-bytes id small
  frame-id EventType.rejected = be64-bytes id small
  frame-id EventType.executed = be64-bytes id small
  frame-id EventType.canceled = be64-bytes id small
  frame-id EventType.replaced = be64-bytes id small

  frame-body :
      (kind : EventType)
      → 0 < quantity
      → quantity < 2 ^ 32
      → 0 < price
      → price < 2 ^ 32
      → parse_body (frame kind id quantity price reason rest) 2 (body_length kind) id
        ≡ some (message kind id quantity price reason)
  unfolding frame parse_body
  frame-body EventType.accepted q q32 p p32 = refl
  frame-body EventType.rejected q q32 p p32 = refl
  frame-body EventType.executed q q32 p p32 =
      let test : leb_ℤ (pos quantity) (pos 0) ≡ false = ground arith in
      rw (frame-quantity EventType.executed refl q32, test) refl
  frame-body EventType.canceled q q32 p p32 = refl
  frame-body EventType.replaced q q32 p p32 =
      let tests : leb_ℤ (pos quantity) (pos 0) || leb_ℤ (pos price) (pos 0) ≡ false =
        ground arith in
      rw (frame-quantity EventType.replaced refl q32, frame-price p32, tests) refl

  frame_head : (kind : EventType) → frame kind id quantity price reason rest 0 ≡ 0
  unfolding frame
  frame_head EventType.accepted = refl
  frame_head EventType.rejected = refl
  frame_head EventType.executed = refl
  frame_head EventType.canceled = refl
  frame_head EventType.replaced = refl

  frame_length : (kind : EventType) → frame kind id quantity price reason rest 1 ≡ body_length kind
  unfolding frame
  frame_length EventType.accepted = refl
  frame_length EventType.rejected = refl
  frame_length EventType.executed = refl
  frame_length EventType.canceled = refl
  frame_length EventType.replaced = refl

body_length-range : (kind : EventType) → (9 ≤ body_length kind) × (body_length kind ≤ 17)
body_length-range EventType.accepted = (omega arith, omega arith)
body_length-range EventType.rejected = (omega arith, omega arith)
body_length-range EventType.executed = (omega arith, omega arith)
body_length-range EventType.canceled = (omega arith, omega arith)
body_length-range EventType.replaced = (omega arith, omega arith)

-- The parser gives back every message that a frame of its formats holds: for an order id that is not 0 and
-- fits 64 bits, a quantity and a price that are not 0 and fit 32 bits, whatever bytes stand behind the frame and however
-- many are given with it, the event is that of the message, and what is consumed is the frame.
pub parse-frame :
    (kind : EventType) (id quantity price reason : ℕ) (rest : Memory) (length : ℕ)
    → 0 < id
    → id < 2 ^ 64
    → 0 < quantity
    → quantity < 2 ^ 32
    → 0 < price
    → price < 2 ^ 32
    → body_length kind + 2 ≤ length
    → parse (frame kind id quantity price reason rest) length
      ≡ some (message kind id quantity price reason, body_length kind + 2)
parse-frame kind id quantity price reason rest length named small q q32 p p32 fits =
    let range = body_length-range kind in
    parse-good (frame kind id quantity price reason rest) length (body_length kind) id
      (frame_head id quantity price reason rest named small kind)
      (frame_length id quantity price reason rest named small kind) range.0 range.1 fits
      (frame-id id quantity price reason rest named small kind) named
    ∙ rw (frame-body id quantity price reason rest named small kind q q32 p p32) refl
