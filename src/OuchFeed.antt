-- ===== src/OuchFeed.antt =====
-- luv_ouch.hpp: the messages of the venue, `Parser` and `OrderFlowAdapter`. Memory from `data` on is a
-- function from offsets to bytes. A null `data` fails as a length below 2 does.
pub mod Frames
pub mod Local
pub mod Flow
mod Tests
use luv_flicker.Base.{
  ℕ, zero, suc, ◌+◌, ◌*◌, ◌%◌, ◌^◌, ℤ, pos, leb_ℤ, Bool, true, false, not, ◌&&◌, ◌||◌, Option, none,
  some, if◌then◌else◌, ◌==◌, ltb,
}
use luv_flicker.Itch.Bytes.{Memory}
use luv_flicker.Exec.Gateway.{ExecutionGateway}
use luv_flicker.Exec.Reports.{
  apply_execution_report, apply_cancel_report, apply_replace_report, apply_reject_report,
}
use luv_flicker.Safety.Ledger.{ExecutionReport}

pub data EventType : Type 0 where
  accepted rejected executed canceled replaced : EventType

pub record Event : Type 0 where
  pub kind : EventType
  pub order_id : ℕ
  pub quantity : ℤ
  pub price : ℤ
  pub reason : ℕ

unfoldable pub be32 : Memory → ℕ → ℕ
be32 bytes p = bytes p * 2 ^ 24 + bytes (p + 1) * 2 ^ 16 + bytes (p + 2) * 2 ^ 8 + bytes (p + 3)

-- The loop of `be64`, with the rounds left as fuel: `value << 8` on 64 bits, and a byte.
unfoldable pub be64_loop : ℕ → Memory → ℕ → ℕ → ℕ
be64_loop zero bytes p value = value
be64_loop (suc n) bytes p value = be64_loop n bytes (p + 1) (value * 2 ^ 8 % 2 ^ 64 + bytes p)

unfoldable pub be64 : Memory → ℕ → ℕ
unfolding be64_loop
be64 bytes p = be64_loop 8 bytes p 0

abbrev pub max_body_length : ℕ
max_body_length = 17

-- The switch over the first byte, 'A', 'J', 'E', 'C' or 'U', with its tests of the length. `body` is the
-- offset of the body.
unfoldable pub parse_body : Memory → (body body_length order_id : ℕ) → Option Event
parse_body bytes body body_length order_id =
    let parsed : Event = record {
      kind = EventType.rejected;
      order_id = order_id;
      quantity = pos 0;
      price = pos 0;
      reason = 0;
    } in
    let quantity = pos (be32 bytes (body + 9)) in
    let price = pos (be32 bytes (body + 13)) in
    if bytes body == 65
    then if not (body_length == 9) then none else some (record parsed { kind = EventType.accepted })
    else if bytes body == 74
    then if not (body_length == 10)
      then none
      else some (record parsed { kind = EventType.rejected; reason = bytes (body + 9) })
    else if bytes body == 69
    then if not (body_length == 13)
      then none
      else if leb_ℤ quantity (pos 0)
      then none
      else some (record parsed { kind = EventType.executed; quantity = quantity })
    else if bytes body == 67
    then if not (body_length == 9) then none else some (record parsed { kind = EventType.canceled })
    else if bytes body == 85
    then if not (body_length == 17)
      then none
      else if leb_ℤ quantity (pos 0) || leb_ℤ price (pos 0)
      then none
      else some (record parsed { kind = EventType.replaced; quantity = quantity; price = price })
    else none

-- `event = parsed; consumed = body_length + 2;`
abbrev pub with_consumed : Option Event → (body_length : ℕ) → Option (Event × ℕ)
with_consumed none body_length = none
with_consumed (some event) body_length = some (event, body_length + 2)

-- The event and `consumed`; a failure leaves 0 in `consumed` and is `none`.
unfoldable pub parse : Memory → (length : ℕ) → Option (Event × ℕ)
parse bytes length =
    let body_length = bytes 0 * 2 ^ 8 + bytes 1 in
    if ltb length 2
    then none
    else if ltb body_length 9 || ltb max_body_length body_length || ltb length (body_length + 2)
    then none
    else if be64 bytes 3 == 0
    then none
    else with_consumed (parse_body bytes 2 body_length (be64 bytes 3)) body_length

-- What the recovery, the subscriber and the clocks answer to the gateway.
pub record Answers : Type 0 where
  pub recovery_ok : Bool
  pub subscriber : Option Bool
  pub clock : ℕ
  pub now_ns : ℕ

unfoldable pub report_of : Event → ExecutionReport
report_of event = record {
  order_id = event.order_id;
  filled_quantity = event.quantity;
  terminal = false;
}

-- `consume` behind the parser.
unfoldable pub dispatch :
    ExecutionGateway → ℕ → Event → EventType → Answers → ExecutionGateway × Bool
unfolding report_of
dispatch g symbol event EventType.executed answers =
    apply_execution_report g symbol (report_of event) answers.recovery_ok answers.subscriber
      answers.clock
dispatch g symbol event EventType.canceled answers =
    apply_cancel_report g symbol event.order_id answers.recovery_ok
dispatch g symbol event EventType.replaced answers =
    apply_replace_report g symbol event.order_id event.quantity event.price answers.recovery_ok
dispatch g symbol event EventType.rejected answers =
    apply_reject_report g symbol event.order_id answers.now_ns
dispatch g symbol event EventType.accepted answers = (g, true)

-- The gateway and the answer, and `consumed`.
unfoldable pub consume :
    Memory → (length symbol : ℕ) → ExecutionGateway → Answers → (ExecutionGateway × Bool) × ℕ
consume bytes length symbol g answers = elim (parse bytes length) [
  | none ↦ ((g, false), 0)
  | some (event, consumed) ↦ (dispatch g symbol event event.kind answers, consumed)
]
