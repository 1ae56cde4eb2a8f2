-- ===== src/Execution/Recovery.antt =====
-- recover of polyperps/execution/state_recovery.py: before any strategy runs, the state of the routers is
-- rebuilt from the executor. Every raise inside becomes one RecoveryHalt, after a critical alert with the
-- instrument that was being worked on. Of the report only `states` is kept; the recovery row is JSON.
pub mod Adopted
pub mod Reported
pub mod Turn
use perpbot.Base.{
  ℕ, Bool, true, false, not, ◌&&◌, ◌||◌, Option, none, some, List, [], ◌∷◌, ◌++◌, if◌then◌else◌,
  pos, String,
}
use perpbot.Base.Dict.{Dict, lookup, nat_key}
use perpbot.Decimal.{Decimal}
use perpbot.Execution.ClientId.{dash}
use perpbot.Execution.Portfolio
use perpbot.Execution.Portfolio.{Book, Shared, Call, has_router, all_routers, one_router, on_exec}
use perpbot.Execution.Portfolio.Reconcile.{guard_unrouted}
use perpbot.Execution.Reconciliation.{starts_with}
use perpbot.Execution.Router.Exits.{adopt_pending}
use perpbot.Execution.Router.Rows.{is_flat, is_frozen, is_pending, is_zero, persist, load_local}
use perpbot.Execution.Router.Send.{mem_text}
use perpbot.Execution.Router.Stops.{place_exchange_stop}
use perpbot.Execution.Types.{
  State, flat, open_position, Text, OrderStatus, RowStatus, submitting, venue, adopted, abandoned,
  OrderRow, PositionLocalRow, PositionView, AccountSnapshot, position,
}
use perpbot.Execution.World.{
  Error, failed, Result, ok, err, Executor, Router, World, Action, assign, skip, emit, ◌>>=◌, ◌>>◌,
}
use perpbot.Monitor.{Level, info, warn, critical, alert}
use perpbot.Storage.{get_positions_local, Store, order_rows, upsert_order}

-- `row is not None and row.state in _FROZEN`
abbrev pub row_frozen : Option PositionLocalRow → Bool
row_frozen none = false
row_frozen (some row) = is_frozen row.state

-- `row is None or row.state is State.FLAT`
abbrev pub is_untracked : Option PositionLocalRow → Bool
is_untracked none = true
is_untracked (some row) = is_flat row.state

-- `o.status in ("submitting", "accepted")`
abbrev pub is_unsettled : RowStatus → Bool
is_unsettled submitting = true
is_unsettled (venue OrderStatus.accepted) = true
is_unsettled _ = false

-- `{iid: r.state.value for iid, r in routers.items()}`
abbrev pub states_of : {S : Type 0} → List (Router S) → Dict ℕ State
states_of [] = []
states_of (r ∷ rs) = (r.instrument_id, r.state) ∷ states_of rs

-- A snapshot that is not to be had is a RecoveryHalt, without an alert.
abbrev pub snapshot_halt : Result AccountSnapshot → Result AccountSnapshot
snapshot_halt (ok s) = ok s
snapshot_halt (err e) = err failed

module _ {E S : Type 0} where
  abbrev pub load_row : Option PositionLocalRow → Action E S (Unit {0})
  load_row none w = (ok tt, w)
  load_row (some row) w = load_local row w

  -- `if not frozen: router.state = st`
  abbrev pub settle_unless : Bool → State → Action E S (Unit {0})
  settle_unless frozen st w = assign (λ r. record r { state = if frozen then r.state else st }) w

  abbrev pub warn_untracked : Bool → Action E S (Unit {0})
  warn_untracked true w = emit warn "adopted_untracked" w
  warn_untracked false w = (ok tt, w)

  -- `router.size, router.entry, router.cumulative_funding = …`
  abbrev pub take_position : PositionView → Action E S (Unit {0})
  take_position p = assign (λ r. record r {
    size = p.size;
    entry = some p.entry_price;
    cumulative_funding = p.cumulative_funding;
  })

  abbrev pub take_nothing : Action E S (Unit {0})
  take_nothing = assign (λ r. record r { size = pos 0; entry = none; stop_trigger = none })

  -- The `except` of `recover` around one turn of the loop over the routers.
  abbrev pub halting : Action E S (Unit {0}) → Action E S (Unit {0})
  halting m w =
      let (r, w') = m w in
      elim r [ ok a ↦ (ok a, w') | err e ↦ (err failed, (emit critical "recovery_failed" w').1) ]

  -- The same around a later step, with `current_iid`.
  abbrev pub halting_call : Option ℕ → Call E S (Unit {0}) → Call E S (Unit {0})
  halting_call i m b =
      let (r, c) = m b in
      elim r [
        | ok a ↦ (ok a, c)
        | err e ↦ (err failed, (Portfolio.emit (alert critical "recovery_failed" i) c).1)
      ]

module _ {E S : Type 0} ⦃x : Executor E⦄ where
  -- The stop that the snapshot has, or a fresh one.
  abbrev pub take_stop : Option Decimal → PositionView → Action E S (Unit {0})
  take_stop (some trigger) p w = assign (λ r. record r { stop_trigger = some trigger }) w
  take_stop none p w =
      (place_exchange_stop p w.router.limits >>= λ trigger.
      (assign (λ r. record r { stop_trigger = some trigger }) >> emit info "stop_placed"))
        w

  abbrev pub adopt_position :
      Option PositionLocalRow → Option Decimal → PositionView → Action E S (Unit {0})
  adopt_position row stop p =
      let frozen = row_frozen row in
      do
        warn_untracked (not frozen && is_untracked row)
        take_position p
        settle_unless frozen open_position
        take_stop stop p

  abbrev pub adopt_nothing : Option PositionLocalRow → Action E S (Unit {0})
  adopt_nothing row = do take_nothing; settle_unless (row_frozen row) flat

  abbrev pub adopt_view :
      Option PositionLocalRow → Option Decimal → Option PositionView → Action E S (Unit {0})
  adopt_view row stop none w = adopt_nothing row w
  adopt_view row stop (some p) w =
      if is_zero p.size then adopt_nothing row w else adopt_position row stop p w

  -- One turn of the loop over the routers.
  unfoldable pub recover_router :
      Option PositionLocalRow → Option Decimal → Option PositionView → Action E S (Unit {0})
  unfolding load_local place_exchange_stop persist
  recover_router row stop view = do load_row row; adopt_view row stop view; persist

  unfoldable pub recover_routers : Dict ℕ PositionLocalRow → AccountSnapshot → Call E S (Unit {0})
  recover_routers local snap = all_routers (λ r. halting (
      recover_router (lookup r.instrument_id local) (lookup r.instrument_id snap.stops)
        (position snap r.instrument_id)))

  abbrev pub guard_unknown : Option Decimal → PositionView → Call E S (Unit {0})
  guard_unknown (some trigger) p b = (ok tt, b)
  guard_unknown none p b =
      Portfolio.◌>>◌ (guard_unrouted p)
        (Portfolio.emit (alert info "stop_placed" (some p.instrument_id))) b

  -- One turn of the loop over the positions of the snapshot.
  unfoldable pub recover_unknown : Dict ℕ Decimal → PositionView → Call E S (Unit {0})
  recover_unknown stops p b =
      let i = p.instrument_id in
      if is_zero p.size || has_router i b.routers
      then (ok tt, b)
      else Portfolio.◌>>◌ (Portfolio.emit (alert critical "unknown_position" (some i)))
          (halting_call (some i) (guard_unknown (lookup i stops) p)) b

  unfoldable pub recover_positions : Dict ℕ Decimal → List PositionView → Call E S (Unit {0})
  recover_positions stops [] b = (ok tt, b)
  recover_positions stops (p ∷ ps) b =
      Portfolio.◌>>◌ (recover_unknown stops p) (recover_positions stops ps) b

  -- A resting order goes back to its router, if the stored row was waiting for one.
  abbrev pub resume : OrderRow → Option PositionLocalRow → Call E S (Unit {0})
  resume o none b = (ok tt, b)
  resume o (some row) b =
      if is_pending row.state
      then halting_call (some o.instrument_id)
          (one_router o.instrument_id (λ _. adopt_pending o.client_order_id row.state)) b
      else (ok tt, b)

  -- `db.upsert_order(conn, replace(o, status=status, updated_at=clock()))`
  abbrev pub mark_order : OrderRow → RowStatus → Call E S (Unit {0})
  mark_order o status b =
      let s = b.shared in
      let o' : OrderRow = record o { status = status; updated_at = s.now } in
      (ok tt, record b { shared = record s { store = upsert_order o' s.store } })

  -- One turn of the loop over the stored orders.
  unfoldable pub recover_order :
      Dict ℕ PositionLocalRow → List Text → OrderRow → Call E S (Unit {0})
  recover_order local resting o b =
      if not (is_unsettled o.status)
      then (ok tt, b)
      else if mem_text o.client_order_id resting
      then Portfolio.◌>>◌ (resume o (lookup o.instrument_id local)) (mark_order o adopted) b
      else mark_order o abandoned b

  unfoldable pub recover_orders :
      Dict ℕ PositionLocalRow → List Text → List OrderRow → Call E S (Unit {0})
  recover_orders local resting [] b = (ok tt, b)
  recover_orders local resting (o ∷ os) b =
      Portfolio.◌>>◌ (recover_order local resting o) (recover_orders local resting os) b

  -- The loop that cancels what rests on the venue and is not of this run.
  unfoldable pub cancel_foreign : Text → List Text → Call E S (Unit {0})
  cancel_foreign prefix [] b = (ok tt, b)
  cancel_foreign prefix (id ∷ ids) b =
      if starts_with prefix id
      then cancel_foreign prefix ids b
      else Portfolio.◌>>◌ (halting_call none (on_exec (x.cancel_order id)))
          (cancel_foreign prefix ids) b

  -- What follows the loop over the routers. The stored orders are read after it, once.
  unfoldable pub recover_rest : Dict ℕ PositionLocalRow → AccountSnapshot → Call E S (Unit {0})
  recover_rest local snap = Portfolio.◌>>◌ (recover_positions snap.stops snap.positions) (λ b.
      Portfolio.◌>>◌ (recover_orders local snap.open_orders (order_rows b.shared.store.orders))
        (cancel_foreign (b.run_id ++ (dash ∷ [])) snap.open_orders) b)

  unfoldable pub recover_from : AccountSnapshot → Call E S (Dict ℕ State)
  recover_from snap b =
      let local = get_positions_local b.shared.store in
      Portfolio.◌>>=◌ (Portfolio.◌>>◌ (recover_routers local snap) (recover_rest local snap))
        (λ _ c. (ok (states_of c.routers), (Portfolio.emit (alert info "recovery" none) c).1)) b

  unfoldable pub recover : Call E S (Dict ℕ State)
  recover =
      Portfolio.◌>>=◌ (on_exec (λ e. let (r, e') = x.snapshot e in (snapshot_halt r, e')))
        recover_from
