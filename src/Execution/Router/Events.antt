-- ===== src/Execution/Router/Events.antt =====
-- Venue events: handle_event of the router, for order updates and for fills.
use perpbot.Base.{
  Bool, true, false, not, ◌&&◌, Option, none, some, String, if◌then◌else◌, ◌==◌, ◌+ℤ◌, eqb_text,
  is_some,
}
use perpbot.Decimal.{Decimal}
use perpbot.Execution.Types.{
  State, flat, open_position, exit_pending, liquidated, OrderStatus, OrderUpdate, FillUpdate,
  OrderRow, Text, venue,
}
use perpbot.Execution.Router.Rows.{
  is_frozen, is_flat, is_entry_pending, is_zero, gave_up, persist, set_state, update_order,
  record_fill, apply_fill,
}
use perpbot.Execution.Router.Stops.{replace_stop, adopt_and_settle, settle_state, tell_flat}
use perpbot.Execution.World.{ok, Executor, Strategy, Action, on_exec, assign, emit, ◌>>=◌, ◌>>◌}
use perpbot.Monitor.{warn}
use perpbot.Storage.{get_order}

abbrev pub is_exit_pending : State → Bool
is_exit_pending exit_pending = true
is_exit_pending _ = false

abbrev pub is_state_liquidated : State → Bool
is_state_liquidated liquidated = true
is_state_liquidated _ = false

-- `cid == self._pending_cid`
abbrev pub is_pending_cid : Option Text → Text → Bool
is_pending_cid none id = false
is_pending_cid (some p) id = eqb_text p id

-- `status in ("cancelled", "auto_cancelled", "rejected")`
abbrev pub is_dead : OrderStatus → Bool
is_dead OrderStatus.cancelled = true
is_dead OrderStatus.auto_cancelled = true
is_dead OrderStatus.rejected = true
is_dead _ = false

abbrev pub dead_note : OrderStatus → String
dead_note OrderStatus.cancelled = "order_cancelled"
dead_note OrderStatus.auto_cancelled = "order_auto_cancelled"
dead_note _ = "order_rejected"

abbrev pub row_gave_up : Option OrderRow → Bool
row_gave_up none = false
row_gave_up (some row) = gave_up row.status

abbrev pub add_filled : Decimal → OrderRow → OrderRow
add_filled q r = record r { filled_quantity = r.filled_quantity +ℤ q }

module _ {E S : Type 0} ⦃x : Executor E⦄ ⦃y : Strategy S⦄ where
  abbrev pub follow_status : Option OrderRow → OrderUpdate → Action E S (Unit {0})
  follow_status none ev w = (ok tt, w)
  follow_status (some row) ev w =
      if gave_up row.status
      then (ok tt, w)
      else update_order ev.client_order_id true (λ r. record r { status = venue ev.status }) w

  -- `handle_event` on an order update
  unfoldable pub on_update : OrderUpdate → Action E S (Unit {0})
  on_update ev w =
      if is_pending_cid w.router.pending_cid ev.client_order_id && is_dead ev.status
      then (do
        update_order ev.client_order_id false (λ r. record r { status = venue ev.status })
        emit warn (dead_note ev.status)
        assign (λ r. record r { pending_cid = none })
        settle_state)
          w
      else follow_status (get_order ev.client_order_id w.store) ev w

  -- A fill of an order that was given up on.
  unfoldable pub late_fill : FillUpdate → Action E S (Unit {0})
  late_fill ev = do
    emit warn "late_fill"
    update_order ev.client_order_id false (add_filled ev.quantity)
    snap ← on_exec x.snapshot
    adopt_and_settle snap

  abbrev pub record_ours : Option OrderRow → FillUpdate → Action E S (Unit {0})
  record_ours none ev w = (ok tt, w)
  record_ours (some row) ev w = record_fill row ev w

  -- The position is open: the pending entry has landed.
  unfoldable pub entry_landed : Action E S (Unit {0})
  entry_landed = do
    assign (λ r. record r { pending_cid = none })
    set_state open_position
    replace_stop

  -- A shutdown or a liquidation may have frozen the router before the fill.
  abbrev pub close_state : Action E S (Unit {0})
  close_state w = if is_frozen w.router.state then persist w else set_state flat w

  -- A liquidation fill is not our stop.
  abbrev pub warn_if : Bool → Action E S (Unit {0})
  warn_if b w = if b then emit warn "stop_fired" w else (ok tt, w)

  -- The fill closed the position.
  unfoldable pub position_closed : Bool → FillUpdate → Action E S (Unit {0})
  position_closed ours ev w =
      let r = w.router in
      let was_pending =
        is_exit_pending r.state && is_pending_cid r.pending_cid ev.client_order_id in
      let was_liquidated = is_state_liquidated r.state in
      (do
        assign (λ q. record q { pending_cid = none; stop_trigger = none })
        on_exec (x.cancel_stop r.instrument_id)
        close_state
        tell_flat
        warn_if (not was_pending && not ours && not was_liquidated))
        w

  abbrev pub open_if_flat : Action E S (Unit {0})
  open_if_flat w =
      if is_flat w.router.state then (do set_state open_position; replace_stop) w else (ok tt, w)

  -- The position stays, or opens without us.
  unfoldable pub unexpected_fill : Action E S (Unit {0})
  unexpected_fill = do emit warn "unexpected_fill"; open_if_flat

  -- What follows once the fill is applied and recorded.
  unfoldable pub after_fill : Bool → FillUpdate → Action E S (Unit {0})
  after_fill ours ev w =
      let r = w.router in
      if is_entry_pending r.state
        && is_pending_cid r.pending_cid ev.client_order_id
        && not (is_zero r.size)
      then entry_landed w
      else if is_zero r.size
      then position_closed ours ev w
      else if is_frozen r.state
      then (do emit warn "late_fill"; replace_stop) w
      else if ours && not (is_flat r.state)
      then (ok tt, w)
      else unexpected_fill w

  -- `handle_event` on a fill
  unfoldable pub on_fill : FillUpdate → Action E S (Unit {0})
  on_fill ev w =
      let row = get_order ev.client_order_id w.store in
      if not (ev.instrument_id == w.router.instrument_id)
      then (ok tt, w)
      else if row_gave_up row && not (is_pending_cid w.router.pending_cid ev.client_order_id)
      then late_fill ev w
      else (do apply_fill ev; record_ours row ev; after_fill (is_some row) ev) w
