-- ===== src/Execution/Router/Send.antt =====
-- Guards and order sending: apply_guards, _send, _submit_with_recovery and _landed.
use perpbot.Base.{
  ℕ, ◌+◌, Bool, true, false, ◌||◌, Option, none, some, String, List, [], ◌∷◌, if◌then◌else◌, ltb_ℤ,
  eqb_ℤ, min_ℤ, ◌-ℤ◌, pos, eqb_text,
}
use perpbot.Decimal.{Decimal, ◌*ᴰ◌, ◌/ᴰ◌, quantize, cents}
use perpbot.Execution.ClientId.{cid}
use perpbot.Execution.Types.{
  State, entry_pending, exit_pending, Side, buy, sell, AckStatus, Intent, OrderRequest, OrderAck,
  OrderRow, PositionView, AccountSnapshot, Text, Time, position, RowStatus, venue, OrderStatus,
  submitting, lost, error, shadow_refused,
}
use perpbot.Execution.Router.Rows.{set_state, record_decision, update_order}
use perpbot.Execution.Router.Stops.{halt, adopt}
use perpbot.Execution.World.{
  Error, refused, failed, Result, ok, err, acked, timed_out, raised, Executor, World, Action, pure,
  on_exec, assign, write, emit, ◌>>=◌, ◌>>◌,
}
use perpbot.Monitor.{warn, critical}
use perpbot.Risk.Verdict.{Verdict, allow, resize, reject}
use perpbot.Storage.{upsert_order}

abbrev pub is_reject : Verdict → Bool
is_reject (reject _) = true
is_reject _ = false

abbrev pub any_reject : List (String × Verdict) → Bool
any_reject [] = false
any_reject ((_, v) ∷ vs) = is_reject v || any_reject vs

-- The least of the intent's quantity and the quantities that the guards cut it to.
abbrev pub least_quantity : Decimal → List (String × Verdict) → Decimal
least_quantity q [] = q
least_quantity q ((_, resize r) ∷ vs) = min_ℤ r (least_quantity q vs)
least_quantity q ((_, allow) ∷ vs) = least_quantity q vs
least_quantity q ((_, reject _) ∷ vs) = least_quantity q vs

-- `apply_guards`, but for the labels: a decision row stores the verdicts themselves.
unfoldable pub apply_guards : Intent → List (String × Verdict) → Option Intent
apply_guards intent verdicts =
    let qty = least_quantity intent.quantity verdicts in
    if any_reject verdicts
    then none
    else if eqb_ℤ qty intent.quantity
    then some intent
    else some (record intent {
      quantity = qty;
      notional = quantize cents ((intent.notional *ᴰ qty) /ᴰ intent.quantity);
    })

abbrev pub mem_text : Text → List Text → Bool
mem_text k [] = false
mem_text k (j ∷ js) = eqb_text k j || mem_text k js

abbrev pub size_of : Option PositionView → Decimal
size_of none = pos 0
size_of (some p) = p.size

-- Did the position move in the order's direction?
abbrev pub moved_toward : Side → Decimal → Bool
moved_toward buy d = ltb_ℤ (pos 0) d
moved_toward sell d = ltb_ℤ d (pos 0)

-- `_landed`
unfoldable pub landed : ℕ → OrderRequest → AccountSnapshot → Decimal → Bool
landed instrument_id req snap size_before =
    mem_text req.client_order_id snap.open_orders
    || moved_toward req.side (size_of (position snap instrument_id) -ℤ size_before)

abbrev pub adopted_ack : OrderRequest → Time → OrderAck
adopted_ack req now = record {
  client_order_id = req.client_order_id;
  exchange_order_id = none;
  status = AckStatus.accepted;
  reason = "adopted after timeout";
  ts = now;
}

abbrev pub refused_status : Error → RowStatus
refused_status refused = shadow_refused
refused_status failed = error

abbrev pub new_row : Text → ℕ → Intent → Time → OrderRow
new_row id instrument_id intent now = record {
  client_order_id = id;
  instrument_id = instrument_id;
  side = intent.side;
  quantity = intent.quantity;
  reduce_only = intent.reduce_only;
  status = submitting;
  exchange_order_id = none;
  filled_quantity = pos 0;
  avg_price = none;
  submitted_at = now;
  updated_at = now;
  reason = intent.reason;
}

abbrev pub request : Text → ℕ → Intent → Time → OrderRequest
request id instrument_id intent now = record {
  client_order_id = id;
  instrument_id = instrument_id;
  side = intent.side;
  quantity = intent.quantity;
  reduce_only = intent.reduce_only;
  ts = now;
}

abbrev pub pending_state : Bool → State
pending_state true = exit_pending
pending_state false = entry_pending

-- `a or b` on texts
abbrev pub or_text : String → String → String
or_text String.[] b = b
or_text (String.◌∷◌ c a) b = String.◌∷◌ c a

module _ {E S : Type 0} ⦃x : Executor E⦄ where
  -- After a timeout: look whether the order landed; `again` is what the loop does if not.
  abbrev pub after_timeout :
      OrderRequest → Decimal → Action E S (Option OrderAck) → Action E S (Option OrderAck)
  after_timeout req size_before again w =
      (do
        snap ← on_exec x.snapshot
        (λ v.
            if landed v.router.instrument_id req snap size_before
            then (do emit warn "ack_lost"; pure (some (adopted_ack req v.now))) v
            else again v))
        w

  abbrev pub attempt : OrderRequest → Action E S (Option OrderAck) → Action E S (Option OrderAck)
  attempt req on_timeout w =
      let (s, e) = x.submit_order req w.exec in
      let w' : World E S = record w { exec = e } in
      elim s [ acked a ↦ (ok (some a), w') | timed_out ↦ on_timeout w' | raised er ↦ (err er, w') ]

  -- `_submit_with_recovery`: two attempts with one client order id, each timeout followed by a look at
  -- the exchange. `none` is an order that is lost.
  unfoldable pub submit_with_recovery : OrderRequest → Decimal → Action E S (Option OrderAck)
  submit_with_recovery req size_before = attempt req (
      after_timeout req size_before
        (do emit warn "retry"; attempt req (after_timeout req size_before (pure none))))

  -- A submit that raised: the order may or may not be on the venue.
  unfoldable pub submit_failed : Text → Error → Action E S (Unit {0})
  submit_failed id er = do
    update_order id false (λ r. record r { status = refused_status er; reason = "submit error" })
    emit critical "submit_error"
    halt
    snap ← on_exec x.snapshot
    adopt snap

  abbrev pub accept_ack : Text → Intent → OrderAck → Action E S (Unit {0})
  accept_ack id intent ack = update_order id true (λ r. record r {
    status = venue OrderStatus.accepted;
    exchange_order_id = ack.exchange_order_id;
    reason = or_text ack.reason intent.reason;
  })

  abbrev pub reject_ack : Text → State → OrderAck → Action E S (Unit {0})
  reject_ack id prior ack = do
    update_order id false
        (λ r. record r { status = venue OrderStatus.rejected; reason = ack.reason })
    emit warn "order_rejected"
    assign (λ r. record r { pending_cid = none })
    set_state prior

  -- What `_send` does with the result of the submission.
  unfoldable pub after_submit :
      Text → State → Intent → Result (Option OrderAck) → Action E S (Unit {0})
  after_submit id prior intent (err er) = submit_failed id er
  after_submit id prior intent (ok none) = do
    update_order id false
        (λ r. record r { status = lost; reason = "no ack after timeout and retry" })
    halt
  after_submit id prior intent (ok (some ack)) = elim ack.status [
    | AckStatus.rejected ↦ reject_ack id prior ack
    | AckStatus.accepted ↦ accept_ack id intent ack
  ]

  -- The rows and fields that `_send` writes before the executor is called.
  unfoldable pub prepare : Intent → Option Decimal → List (String × Verdict) → Action E S (Unit {0})
  prepare intent target verdicts w =
      let r = w.router in
      let id = cid r.run_id r.instrument_id (r.seq + 1) in
      (do
        assign (λ q. record q { seq = q.seq + 1 })
        record_decision target verdicts (some intent) (some id) intent.reason
        write (upsert_order (new_row id r.instrument_id intent w.now))
        assign (λ q. record q {
          pending_cid = some id;
          pending_since = some w.now;
          pending_intent = some intent;
        })
        set_state (pending_state intent.reduce_only))
        w

  -- `_send`
  unfoldable pub send : Intent → Option Decimal → List (String × Verdict) → Action E S (Unit {0})
  send intent target verdicts w =
      let r = w.router in
      let id = cid r.run_id r.instrument_id (r.seq + 1) in
      let w₁ = (prepare intent target verdicts w).1 in
      let (res, w₂) = submit_with_recovery (request id r.instrument_id intent w.now) r.size w₁ in
      after_submit id r.state intent res w₂
