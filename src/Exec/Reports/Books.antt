-- ===== src/Exec/Reports/Books.antt =====
-- What the reports of the venue do to the books of the symbols in luv_execution.hpp.
use luv_flicker.Base.{
  ℕ, ◌≡◌, ℤ, pos, leb_ℤ, Bool, true, false, not, ◌||◌, some, ◌==◌, refl, arith, Bool-cases,
  Option-cases, inl, inr, if_cases, update_self,
}
use luv_flicker.Arena.Config
use luv_flicker.Arena.Orders.{ActiveOrder}
use luv_flicker.Exec.Slots.{is_open, search_orders, has_id, has_open_id, replace_slot}
use luv_flicker.Exec.Slots.Held.{search_orders-holds}
use luv_flicker.Exec.Slots.Settled.{close_slot-Books, replace_slot-Books}
use luv_flicker.Exec.Gateway.{
  ExecutionGateway, with_state, set_halted, count_reject, release_slot, record_failure, cancel,
}
use luv_flicker.Exec.Gateway.Admission.{Kept, Kept-update, set_halted-Kept, count_reject-Kept}
use luv_flicker.Exec.Reports.{
  trip, mismatch, unreachable, close, apply_cancel_report, apply_replace_report, note_reject,
  apply_reject_report, search_symbols, cancel_order,
}
use luv_flicker.Safety.Breaker
use luv_flicker.Safety.Ledger
use luv_flicker.Safety.Ledger.{ExecutionReport}

has_id-open :
    (id : ℕ) (o : ActiveOrder) → has_id id o ≡ true → (o.state == 3) ≡ false → is_open o ≡ true
unfolding has_id is_open
has_id-open id o h live = ground arith

has_open_id-open : (id : ℕ) (o : ActiveOrder) → has_open_id id o ≡ true → is_open o ≡ true
unfolding has_open_id is_open
has_open_id-open id o h = ground arith

-- A call returns a gateway with kept books.
abbrev KeptBy : (positions exposures : ℕ → ℤ) → ExecutionGateway × Bool → Type 0
KeptBy positions exposures r = Kept r.0.states positions exposures

halted-orders :
    (g : ExecutionGateway) (sym halted : ℕ)
    → ((set_halted g sym halted).states sym).orders ≡ (g.states sym).orders
unfolding set_halted with_state
halted-orders g sym halted = rw (update_self g.states sym _) refl

note_reject-orders :
    (g : ExecutionGateway) (sym now_ns : ℕ)
    → ((note_reject g sym now_ns).states sym).orders ≡ (g.states sym).orders
unfolding note_reject count_reject set_halted with_state
note_reject-orders g sym now_ns = ground arith

module _ {positions exposures : ℕ → ℤ} where
  pub mismatch-Kept :
      (g : ExecutionGateway) (sym : ℕ)
      → Kept g.states positions exposures
      → Kept (mismatch g sym).0.states positions exposures
  unfolding mismatch trip
  mismatch-Kept g sym k = set_halted-Kept g sym 1 k

  close-Kept :
      (g : ExecutionGateway) (p : ActiveOrder → Bool) (sym : ℕ) {slot : ℕ} {o : ActiveOrder}
      → Kept g.states positions exposures
      → search_orders p (g.states sym).orders ≡ some (slot, o)
      → is_open o ≡ true
      → Kept (close g sym slot o).states positions exposures
  unfolding close release_slot with_state
  close-Kept g p sym k found live =
      Kept-update g.states sym _ k (close_slot-Books p (g.states sym) found live (k.at sym))

  note_reject-Kept :
      (g : ExecutionGateway) (sym now_ns : ℕ)
      → Kept g.states positions exposures
      → Kept (note_reject g sym now_ns).states positions exposures
  unfolding note_reject
  note_reject-Kept g sym now_ns k =
      let counted = count_reject-Kept g sym k in
      let told : ExecutionGateway = record (count_reject g sym) {
        breaker = Breaker.record_rejection g.breaker now_ns;
      } in
      if_cases (λ (x : ExecutionGateway). Kept x.states positions exposures) _ _ _
        (set_halted-Kept told sym 1 counted) counted

  -- A cancel report leaves the books of the fills as they are, on every branch.
  pub apply_cancel_report-Kept :
      (g : ExecutionGateway) (sym order_id : ℕ) (recovery : Bool)
      → Kept g.states positions exposures
      → Kept (apply_cancel_report g sym order_id recovery).0.states positions exposures
  unfolding apply_cancel_report trip
  apply_cancel_report-Kept g sym order_id recovery k =
      let told : ExecutionGateway = record g { ledger = (Ledger.cancel g.ledger order_id).0 } in
      elim (Bool-cases (unreachable g sym)) [
        | inl gone ↦ rw gone k
        | inr there ↦ elim (Option-cases (search_orders (has_id order_id) (g.states sym).orders)) [
          | inl unknown ↦ rw (there, unknown) (mismatch-Kept g sym k)
          | inr ((slot, o), found) ↦ elim (Bool-cases (o.state == 3)) [
            | inl done ↦ rw (there, found, done) k
            | inr live ↦
                let is_live =
                  has_id-open order_id o
                    (search_orders-holds (has_id order_id) (g.states sym).orders found) live in
                rw (there, found, live)
                  (if_cases (KeptBy positions exposures)
                    (not (Ledger.contains g.ledger order_id) || not recovery) (mismatch g sym) _
                    (mismatch-Kept g sym k)
                    (if_cases (KeptBy positions exposures) (not (Ledger.cancel g.ledger order_id).1)
                      (mismatch told sym) (close told sym slot o, true) (mismatch-Kept told sym k)
                      (close-Kept told (has_id order_id) sym k found is_live)))
          ]
        ]
      ]

  -- A replace report leaves the books of the fills as they are, on every branch.
  pub apply_replace_report-Kept :
      (g : ExecutionGateway) (sym order_id : ℕ) (qty price : ℤ) (recovery : Bool)
      → Kept g.states positions exposures
      → Kept (apply_replace_report g sym order_id qty price recovery).0.states positions exposures
  unfolding apply_replace_report trip with_state
  apply_replace_report-Kept g sym order_id qty price recovery k =
      let told : ExecutionGateway = record g {
        ledger = (Ledger.replace g.ledger order_id qty).0;
      } in
      elim (Bool-cases (unreachable g sym)) [
        | inl gone ↦ rw gone k
        | inr there ↦
            elim (Option-cases (search_orders (has_open_id order_id) (g.states sym).orders)) [
              | inl unknown ↦ rw (there, unknown) (mismatch-Kept g sym k)
              | inr ((slot, o), found) ↦
                  let is_live =
                    has_open_id-open order_id o
                      (search_orders-holds (has_open_id order_id) (g.states sym).orders found) in
                  rw (there, found)
                    (if_cases (KeptBy positions exposures)
                      (not (Ledger.contains g.ledger order_id)
                        || leb_ℤ qty (pos 0)
                        || leb_ℤ price (pos 0)
                        || not recovery)
                      (mismatch g sym) _ (mismatch-Kept g sym k)
                      (if_cases (KeptBy positions exposures)
                        (not (Ledger.replace g.ledger order_id qty).1) (mismatch told sym)
                        (with_state told sym (replace_slot (g.states sym) slot o qty price), true)
                        (mismatch-Kept told sym k)
                        (Kept-update g.states sym _ k (
                          replace_slot-Books (has_open_id order_id) (g.states sym) qty price found
                            is_live (k.at sym)))))
            ]
      ]

  -- A reject report leaves the books of the fills as they are, on every branch.
  pub apply_reject_report-Kept :
      (g : ExecutionGateway) (sym order_id now_ns : ℕ)
      → Kept g.states positions exposures
      → Kept (apply_reject_report g sym order_id now_ns).0.states positions exposures
  unfolding apply_reject_report record_failure cancel
  apply_reject_report-Kept g sym order_id now_ns k =
      let noted = note_reject g sym now_ns in
      let kept = note_reject-Kept g sym now_ns k in
      elim (Bool-cases (unreachable g sym)) [
        | inl gone ↦ rw gone k
        | inr there ↦ elim (Option-cases (search_orders (has_id order_id) (g.states sym).orders)) [
          | inl unknown ↦ rw (there, unknown) kept
          | inr ((slot, o), found) ↦ elim (Bool-cases (o.state == 3)) [
            | inl done ↦ rw (there, found, done) k
            | inr live ↦
                let is_live =
                  has_id-open order_id o
                    (search_orders-holds (has_id order_id) (g.states sym).orders found) live in
                let still : search_orders (has_id order_id) (noted.states sym).orders
                    ≡ some (slot, o) =
                  rw (note_reject-orders g sym now_ns) found in
                rw (there, found, live)
                  (close-Kept (cancel noted order_id) (has_id order_id) sym kept still is_live)
          ]
        ]
      ]

  -- Cancelling an order by its id leaves the books of the fills as they are.
  pub cancel_order-Kept :
      (g : ExecutionGateway) (order_id : ℕ) (recovery : Bool)
      → Kept g.states positions exposures
      → Kept (cancel_order g order_id recovery).0.states positions exposures
  unfolding cancel_order
  cancel_order-Kept g order_id recovery k =
      if_cases (KeptBy positions exposures) (not g.attached || (order_id == 0)) _ _ k
        (elim (Option-cases (search_symbols (has_open_id order_id) g.states Config.symbols 0)) [
          | inl unknown ↦ rw unknown k
          | inr ((sym, o), found) ↦ rw found (apply_cancel_report-Kept g sym order_id recovery k)
        ])
