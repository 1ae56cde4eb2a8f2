-- ===== src/Execution/LiveExecutor/Orders.antt =====
-- LiveExecutor and ShadowExecutor of polyperps/execution/live_executor.py: the constructor behind the gate,
-- the writes, and both as executors. A GateClosed is a raise like any other for the router.
use perpbot.Base.{
  ℕ, Bool, true, false, not, Option, none, some, List, [], ◌∷◌, String, if◌then◌else◌,
}
use perpbot.Base.Dict.{lookup, insert, erase, nat_key}
use perpbot.Decimal.{Decimal}
use perpbot.Execution.LiveExecutor.{
  VenueStatus, Mapped, mapped, not_ours, unmapped, map_status, status_text, Placement, placed,
  request_rejected, place_raised, no_answer, Session, Live, on_session, live_snapshot,
}
use perpbot.Execution.Types.{AckStatus, OrderStatus, Text, Time, OrderRequest, OrderAck}
use perpbot.Execution.World.{
  refused, failed, Submitted, acked, timed_out, raised, Result, ok, err, Executor,
}
use perpbot.Gates.{GateDecision}

-- The loop of the constructor over the instruments.
unfoldable pub gates_open : List ℕ → (ℕ → GateDecision) → Bool
gates_open [] gate = true
gates_open (i ∷ is) gate =
    let rest = gates_open is gate in if not (gate i).allowed then false else rest

-- `LiveExecutor.__init__`: none is a GateClosed
unfoldable pub open_live : {V : Type 0} → List ℕ → (ℕ → GateDecision) → V → Time → Option (Live V)
open_live [] gate v now = none
open_live (i ∷ is) gate v now =
    if gates_open (i ∷ is) gate
    then some (record { session = v; stop_ids = []; gate = gate; now = now })
    else none

abbrev live_ack : OrderRequest → Option String → AckStatus → String → Time → OrderAck
live_ack o id st reason now = record {
  client_order_id = o.client_order_id;
  exchange_order_id = id;
  status = st;
  reason = reason;
  ts = now;
}

abbrev is_duplicate : VenueStatus → Bool
is_duplicate VenueStatus.duplicate_order = true
is_duplicate _ = false

-- `mapped in ("rejected", "cancelled", "auto_cancelled")`
abbrev pub is_dead : OrderStatus → Bool
is_dead OrderStatus.rejected = true
is_dead OrderStatus.cancelled = true
is_dead OrderStatus.auto_cancelled = true
is_dead _ = false

-- The acknowledgement for a status. Of the reason "unknown status …" the status is left out.
abbrev pub ack_status : OrderRequest → Option String → VenueStatus → Mapped → Time → OrderAck
ack_status o id st unmapped now = live_ack o id AckStatus.rejected "unknown status" now
ack_status o id st (mapped m) now =
    if is_dead m
    then live_ack o id AckStatus.rejected (status_text st) now
    else live_ack o id AckStatus.accepted "" now
ack_status o id st not_ours now =
    live_ack o id AckStatus.accepted (if is_duplicate st then "duplicate_order" else "") now

abbrev pub read_placement : OrderRequest → Placement → Time → Submitted
read_placement o (placed id st) now = acked (ack_status o id st (map_status st) now)
read_placement o (request_rejected reason) now =
    acked (live_ack o none AckStatus.rejected reason now)
read_placement o place_raised now = raised failed
read_placement o no_answer now = timed_out

module _ {V : Type 0} ⦃v : Session V⦄ where
  abbrev pub send_live : OrderRequest → Live V → Submitted × Live V
  send_live o l = let (p, l') = on_session (v.place_order o) l in (read_placement o p l'.now, l')

  -- `LiveExecutor.submit`: the locks are read again for every order
  unfoldable pub live_submit : OrderRequest → Live V → Submitted × Live V
  live_submit o l =
      if not (l.gate o.instrument_id).allowed then (raised failed, l) else send_live o l

  -- `cancel`
  abbrev pub live_cancel : Text → Live V → Result (Unit {0}) × Live V
  live_cancel id l = on_session (v.cancel_client_order id) l

  abbrev pub keep_stop_id : ℕ → Result (Option ℕ) → Live V → Result (Unit {0}) × Live V
  keep_stop_id i (ok none) l = (ok tt, l)
  keep_stop_id i (ok (some n)) l = (ok tt, record l { stop_ids = insert i n l.stop_ids })
  keep_stop_id i (err e) l = (err e, l)

  -- `place_stop`
  unfoldable pub live_place_stop : ℕ → Decimal → Live V → Result (Unit {0}) × Live V
  live_place_stop i trigger l =
      let (r, l') = on_session (v.place_position_stop i trigger) l in keep_stop_id i r l'

  abbrev pub cancel_known : Option ℕ → Live V → Result (Unit {0}) × Live V
  cancel_known none l = (ok tt, l)
  cancel_known (some n) l = on_session (v.cancel_order_id n) l

  -- `cancel_stop`: the id is popped before the call
  unfoldable pub live_cancel_stop : ℕ → Live V → Result (Unit {0}) × Live V
  live_cancel_stop i l =
      cancel_known (lookup i l.stop_ids) (record l { stop_ids = erase i l.stop_ids })

  -- `LiveExecutor`
  abbrev pub live_executor : Executor (Live V)
  live_executor = record {
    is_shadow = false;
    submit_order = live_submit;
    place_stop = live_place_stop;
    cancel_stop = live_cancel_stop;
    cancel_order = live_cancel;
    snapshot = live_snapshot;
  }

  -- `ShadowExecutor`: every write is refused, except that there is no stop of ours to cancel.
  abbrev pub shadow_executor : Executor (Live V)
  shadow_executor = record {
    is_shadow = true;
    submit_order = λ o l. (raised refused, l);
    place_stop = λ i trigger l. (err refused, l);
    cancel_stop = λ i l. (ok tt, l);
    cancel_order = λ id l. (err refused, l);
    snapshot = live_snapshot;
  }
