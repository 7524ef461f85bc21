-- ===== src/OuchFeed/Flow.antt =====
-- What the messages of luv_ouch.hpp do to the gateway of luv_execution.hpp.
use luv_flicker.Base.{ℕ, ◌+◌, ◌^◌, ◌<◌, ◌≤◌, ◌≡◌, ℤ, pos, ◌*ℤ◌, refl, Bool, true, false, some}
use luv_flicker.Itch.Bytes.{Memory}
use luv_flicker.Arena.Orders.{ActiveOrder}
use luv_flicker.Exec.Types.{signed_qty_delta}
use luv_flicker.Exec.Gateway.{ExecutionGateway}
use luv_flicker.Exec.Gateway.Admission.{Kept}
use luv_flicker.Exec.Slots.{is_open, search_orders, has_id}
use luv_flicker.Exec.Reports.{
  apply_execution_report, apply_cancel_report, apply_replace_report, apply_reject_report,
}
use luv_flicker.Exec.Reports.Books.{
  apply_cancel_report-Kept, apply_replace_report-Kept, apply_reject_report-Kept,
}
use luv_flicker.Exec.Reports.Fills.{booked, apply_execution_report-Kept}
use luv_flicker.OuchFeed.{EventType, Answers, dispatch, consume, report_of}
use luv_flicker.OuchFeed.Frames.{frame, message, body_length, parse-frame}

-- The call of the gateway that a message of the venue asks for, in the fields of the message.
abbrev pub asked :
    ExecutionGateway
    → (symbol : ℕ) → EventType
    → (order_id quantity price : ℕ) → Answers
    → ExecutionGateway × Bool
asked g symbol EventType.accepted order_id quantity price answers = (g, true)
asked g symbol EventType.rejected order_id quantity price answers =
    apply_reject_report g symbol order_id answers.now_ns
asked g symbol EventType.executed order_id quantity price answers =
    apply_execution_report g symbol
      (record { order_id = order_id; filled_quantity = pos quantity; terminal = false })
      answers.recovery_ok answers.subscriber answers.clock
asked g symbol EventType.canceled order_id quantity price answers =
    apply_cancel_report g symbol order_id answers.recovery_ok
asked g symbol EventType.replaced order_id quantity price answers =
    apply_replace_report g symbol order_id (pos quantity) (pos price) answers.recovery_ok

-- What a message of that kind books: an execution that is taken books an amount, nothing else does.
abbrev pub booked_by : EventType → (ℕ → ℤ) → (symbol : ℕ) → ℤ → Bool → ℕ → ℤ
booked_by EventType.executed amounts symbol amount ok = booked amounts symbol amount ok
booked_by EventType.accepted amounts symbol amount ok = amounts
booked_by EventType.rejected amounts symbol amount ok = amounts
booked_by EventType.canceled amounts symbol amount ok = amounts
booked_by EventType.replaced amounts symbol amount ok = amounts

asked-Kept :
    (g : ExecutionGateway) (symbol : ℕ) (kind : EventType) (id quantity price : ℕ)
    (answers : Answers) (slot : ℕ) (o : ActiveOrder) {positions exposures : ℕ → ℤ}
    → Kept g.states positions exposures
    → (kind ≡ EventType.executed
        → (search_orders (has_id id) (g.states symbol).orders ≡ some (slot, o))
          × (is_open o ≡ true))
    → let (g', ok) = asked g symbol kind id quantity price answers in
      Kept g'.states
        (booked_by kind positions symbol (signed_qty_delta o.side (pos quantity)) ok)
        (booked_by kind exposures symbol (o.price *ℤ pos quantity) ok)
asked-Kept g symbol EventType.accepted id quantity price answers slot o k finds = k
asked-Kept g symbol EventType.rejected id quantity price answers slot o k finds =
    apply_reject_report-Kept g symbol id answers.now_ns k
asked-Kept g symbol EventType.executed id quantity price answers slot o k finds =
    apply_execution_report-Kept g symbol _ answers.recovery_ok answers.subscriber answers.clock k
      (finds refl).0 (finds refl).1
asked-Kept g symbol EventType.canceled id quantity price answers slot o k finds =
    apply_cancel_report-Kept g symbol id answers.recovery_ok k
asked-Kept g symbol EventType.replaced id quantity price answers slot o k finds =
    apply_replace_report-Kept g symbol id (pos quantity) (pos price) answers.recovery_ok k

dispatch-asked :
    (g : ExecutionGateway) (symbol : ℕ) (kind : EventType) (id quantity price reason : ℕ)
    (answers : Answers)
    → dispatch g symbol (message kind id quantity price reason) kind answers
      ≡ asked g symbol kind id quantity price answers
unfolding dispatch report_of
dispatch-asked g symbol EventType.accepted id quantity price reason answers = refl
dispatch-asked g symbol EventType.rejected id quantity price reason answers = refl
dispatch-asked g symbol EventType.executed id quantity price reason answers = refl
dispatch-asked g symbol EventType.canceled id quantity price reason answers = refl
dispatch-asked g symbol EventType.replaced id quantity price reason answers = refl

module _ (kind : EventType) (id quantity price reason : ℕ) (rest : Memory) (length : ℕ)
    (named : 0 < id) (small : id < 2 ^ 64) (q : 0 < quantity) (q32 : quantity < 2 ^ 32)
    (p : 0 < price) (p32 : price < 2 ^ 32) (fits : body_length kind + 2 ≤ length) where
  consume-asked :
      (symbol : ℕ) (g : ExecutionGateway) (answers : Answers)
      → consume (frame kind id quantity price reason rest) length symbol g answers
        ≡ (asked g symbol kind id quantity price answers, body_length kind + 2)
  unfolding consume
  consume-asked symbol g answers =
      rw
        (
          consume,
          parse-frame kind id quantity price reason rest length named small q q32 p p32 fits,
          dispatch-asked g symbol kind id quantity price reason answers,
        )
        refl

  -- A whole frame of a message with an order id that is not 0 and fits 64 bits, and a quantity and a price that are not
  -- 0 and fit 32 bits, in front of any bytes, makes the adapter do the call of the gateway that the message asks for,
  -- with the order id, quantity and price of the message and the clock and answers given, answer what the call answers
  -- and consume the frame. If the risk state of every symbol is its fills and its open orders together, and an executed
  -- order is found open, it is so afterwards: an execution that is taken adds its signed quantity, and its worth at
  -- the price of the order, to the fills of the symbol, and every other message leaves the fills.
  pub consume-frame :
      (symbol : ℕ) (g : ExecutionGateway) (answers : Answers) (slot : ℕ) (o : ActiveOrder)
      {positions exposures : ℕ → ℤ}
      → Kept g.states positions exposures
      → (kind ≡ EventType.executed
          → (search_orders (has_id id) (g.states symbol).orders ≡ some (slot, o))
            × (is_open o ≡ true))
      → let (r, consumed) =
          consume (frame kind id quantity price reason rest) length symbol g answers in
        (r ≡ asked g symbol kind id quantity price answers)
        × (consumed ≡ body_length kind + 2)
        × Kept
            (r.0).states
            (booked_by kind positions symbol (signed_qty_delta o.side (pos quantity)) r.1)
            (booked_by kind exposures symbol (o.price *ℤ pos quantity) r.1)
  consume-frame symbol g answers slot o k finds =
      rw (consume-asked symbol g answers)
        (refl, refl, asked-Kept g symbol kind id quantity price answers slot o k finds)
