-- ===== src/Execution/Router/Calls.antt =====
-- The router changes the executor only through the calls of the Executor interface: what every call of the
-- interface keeps, every handler keeps. Here the stops, sending and exits; the handlers are in Kept.
pub mod Kept
use perpbot.Base.{
  ℕ, ◌+◌, Bool, true, false, not, ◌&&◌, ◌||◌, Option, none, some, or_else, String, List, [], ◌∷◌,
  ◌≡◌, refl, arith, Bool-cases, inl, inr, if◌then◌else◌, ltb, is_some, last?, ◌==◌,
}
use perpbot.Base.Dict.{lookup, nat_key}
use perpbot.Decimal.{Decimal}
use perpbot.Execution.ClientId.{cid}
use perpbot.Execution.Router.Bars.{
  entry_intent, guard_verdicts, clamp_target, send_guarded, enter, manage, decide, at_mark, at_bar,
  on_bar, fast_position, protect, watch_margin, on_fast,
}
use perpbot.Execution.Router.Events.{
  add_filled, is_exit_pending, is_pending_cid, is_state_liquidated, close_state, warn_if, on_update,
  late_fill, record_ours, entry_landed, position_closed, unexpected_fill, after_fill, on_fill,
}
use perpbot.Execution.Router.Exits.{
  is_pause, is_flip, exit_intent, exit_with, exit_now, shutdown, is_due, give_up, check_pending,
}
use perpbot.Execution.Router.Handlers.{
  Call, bar_closed, tick, check, order_update, filled, kill, stop_trading, handle, handle_all,
}
use perpbot.Execution.Router.Rows.{
  is_zero, is_flat, is_frozen, is_pending, is_long, persist, set_state, record_decision,
  update_order, record_fill, apply_fill,
}
use perpbot.Execution.Router.Send.{
  submit_with_recovery, attempt, after_timeout, submit_failed, refused_status, after_submit,
  apply_guards, prepare, send, request, landed, adopted_ack,
}
use perpbot.Execution.Router.Stops.{
  place_exchange_stop, placed_or_refused, stop_for, settle_state, tell_strategy, tell_flat,
  replace_stop, halt, adopt, adopt_stop, take_position, adopt_and_settle,
}
use perpbot.Execution.Types.{
  State, Text, Time, Intent, OrderRequest, OrderAck, OrderRow, PositionView, AccountSnapshot,
  FillUpdate, OrderUpdate, Bar, position,
}
use perpbot.Execution.World.{
  Error, refused, failed, Submitted, acked, timed_out, raised, Result, ok, err, Executor, Strategy,
  World, Action, pure, emit, on_exec, ◌>>=◌, ◌>>◌,
}
use perpbot.Execution.World.Hoare.{>>=-keeps}
use perpbot.Monitor.{warn, critical}
use perpbot.Risk.KillSwitch
use perpbot.Risk.LiquidationGuard.{RiskLimits, stop_price}
use perpbot.Storage.{get_order}
use perpbot.Risk.Verdict.{Verdict}

-- Every call of the interface keeps `Q`.
pub record KeptByCalls (E : Type 0) (x : Executor E) (Q : E → Type 0) : Type 0 where
  pub submit_keeps : (o : OrderRequest) (e : E) → Q e → Q (x.submit_order o e).1
  pub place_stop_keeps : (i : ℕ) (t : Decimal) (e : E) → Q e → Q (x.place_stop i t e).1
  pub cancel_stop_keeps : (i : ℕ) (e : E) → Q e → Q (x.cancel_stop i e).1
  pub cancel_order_keeps : (id : Text) (e : E) → Q e → Q (x.cancel_order id e).1
  pub snapshot_keeps : (e : E) → Q e → Q (x.snapshot e).1

module _ {E S : Type 0} ⦃x : Executor E⦄ (Q : E → Type 0) (k : KeptByCalls E x Q) where
  abbrev Holds : World E S → Type 0
  Holds w = Q w.exec

  placed_or_refused-Holds :
      (a : Result (Unit {0})) (t : Decimal) (w : World E S)
      → Holds w
      → Holds (placed_or_refused a t w).1
  unfolding persist
  placed_or_refused-Holds (ok _) t w h = h
  placed_or_refused-Holds (err refused) t w h = h
  placed_or_refused-Holds (err failed) t w h = h

  stop_for-Holds :
      (entry : Option Decimal) (size : Decimal) (w : World E S)
      → Holds w
      → Holds (stop_for entry size w).1
  stop_for-Holds none size w h = h
  stop_for-Holds (some entry) size w h =
      let r = w.router in
      let t = stop_price (is_long size) entry r.limits in
      let (a, e) = x.place_stop r.instrument_id t w.exec in
      placed_or_refused-Holds a t (record w { exec = e })
        (k.place_stop_keeps r.instrument_id t w.exec h)

  pub replace_stop-Holds : (w : World E S) → Holds w → Holds (replace_stop w).1
  unfolding replace_stop
  replace_stop-Holds w h = elim (Bool-cases (is_zero w.router.size)) [
    | inl z ↦ rw z h
    | inr n ↦ rw n (stop_for-Holds w.router.entry w.router.size w h)
  ]

  pub halt-Holds : (w : World E S) → Holds w → Holds (halt w).1
  unfolding halt
  halt-Holds w h = ground arith

  place_exchange_stop-Holds :
      (p : PositionView) (limits : RiskLimits) (w : World E S)
      → Holds w
      → Holds (place_exchange_stop p limits w).1
  unfolding place_exchange_stop
  place_exchange_stop-Holds p limits w h =
      let t = stop_price (is_long p.size) p.entry_price limits in
      ground (arith, k.place_stop_keeps p.instrument_id t w.exec h)

  adopt_stop-Holds :
      (stop : Option Decimal) (p : PositionView) (w : World E S)
      → Holds w
      → Holds (adopt_stop stop p w).1
  adopt_stop-Holds (some t) p w h = h
  adopt_stop-Holds none p w h = ground (arith, place_exchange_stop-Holds p w.router.limits w h)

  take_position-Holds :
      (p : Option PositionView) (snap : AccountSnapshot) (w : World E S)
      → Holds w
      → Holds (take_position p snap w).1
  take_position-Holds none snap w h = h
  take_position-Holds (some p) snap w h = elim (Bool-cases (is_zero p.size)) [
    | inl z ↦ rw z h
    | inr n ↦ rw n (adopt_stop-Holds (lookup w.router.instrument_id snap.stops) p _ h)
  ]

  pub adopt-Holds : (snap : AccountSnapshot) (w : World E S) → Holds w → Holds (adopt snap w).1
  unfolding adopt
  adopt-Holds snap w h =
      let w' : World E S = record w {
        router = record (w.router) { pending_cid = none; pending_since = none };
      } in
      >>=-keeps Holds (take_position (position snap w.router.instrument_id) snap) (λ _. persist) w'
        (take_position-Holds (position snap w.router.instrument_id) snap w' h) (λ _ v g. g)

  after_timeout-Holds :
      (req : OrderRequest) (d : Decimal) (again : Action E S (Option OrderAck)) (w : World E S)
      → Holds w
      → ((v : World E S) → Holds v → Holds (again v).1)
      → Holds (after_timeout req d again w).1
  after_timeout-Holds req d again w h more =
      >>=-keeps Holds (on_exec x.snapshot)
        (λ snap v.
          if landed v.router.instrument_id req snap d
          then (do emit warn "ack_lost"; pure (some (adopted_ack req v.now))) v
          else again v)
        w (k.snapshot_keeps w.exec h) (λ snap v g. ground (arith, more v g))

  attempt-Holds :
      (req : OrderRequest) (again : Action E S (Option OrderAck)) (w : World E S)
      → Holds w
      → ((v : World E S) → Holds v → Holds (again v).1)
      → Holds (attempt req again w).1
  attempt-Holds req again w h more =
      let w' : World E S = record w { exec = (x.submit_order req w.exec).1 } in
      let done = k.submit_keeps req w.exec h in ground (arith, done, more w' done)

  submit_with_recovery-Holds :
      (req : OrderRequest) (d : Decimal) (w : World E S)
      → Holds w
      → Holds (submit_with_recovery req d w).1
  unfolding submit_with_recovery
  submit_with_recovery-Holds req d w h =
      let last : Action E S (Option OrderAck) = after_timeout req d (pure none) in
      let again : Action E S (Option OrderAck) = (do emit warn "retry"; attempt req last) in
      attempt-Holds req (after_timeout req d again) w h λ v g.
        after_timeout-Holds req d again v g λ u f.
          attempt-Holds req last (emit warn "retry" u).1 f
            λ t e. after_timeout-Holds req d (pure none) t e λ s i. i

  submit_failed-Holds :
      (id : Text) (er : Error) (w : World E S) → Holds w → Holds (submit_failed id er w).1
  unfolding submit_failed
  submit_failed-Holds id er w h =
      >>=-keeps Holds halt (λ _. on_exec x.snapshot >>= adopt)
        (emit critical "submit_error"
          (update_order id false
            (λ r. record r { status = refused_status er; reason = "submit error" }) w).1).1
        (halt-Holds _ h)
        λ _ v g.
          >>=-keeps Holds (on_exec x.snapshot) adopt v (k.snapshot_keeps v.exec g) adopt-Holds

  after_submit-Holds :
      (id : Text) (prior : State) (i : Intent) (res : Result (Option OrderAck)) (w : World E S)
      → Holds w
      → Holds (after_submit id prior i res w).1
  unfolding after_submit set_state
  after_submit-Holds id prior i (err er) w h = submit_failed-Holds id er w h
  after_submit-Holds id prior i (ok none) w h = halt-Holds _ h
  after_submit-Holds id prior i (ok (some a)) w h = ground arith

  prepare-exec :
      (i : Intent) (t : Option Decimal) (vs : List (String × Verdict)) (w : World E S)
      → (prepare i t vs w).1.exec ≡ w.exec
  unfolding prepare record_decision set_state
  prepare-exec i t vs w = refl

  send-Holds :
      (i : Intent) (t : Option Decimal) (vs : List (String × Verdict)) (w : World E S)
      → Holds w
      → Holds (send i t vs w).1
  unfolding send
  send-Holds i t vs w h =
      let r = w.router in
      let id = cid r.run_id r.instrument_id (r.seq + 1) in
      let w₁ = (prepare i t vs w).1 in
      let req = request id r.instrument_id i w.now in
      let (res, w₂) = submit_with_recovery req r.size w₁ in
      after_submit-Holds id r.state i res w₂
        (submit_with_recovery-Holds req r.size w₁ (rw (prepare-exec i t vs w) h))

  pub shutdown-Holds :
      (mark : Decimal) (held : Option Decimal) (w : World E S)
      → Holds w
      → Holds (shutdown mark held w).1
  unfolding shutdown set_state exit_with
  shutdown-Holds mark held w h = ground (
    arith,
    send-Holds
        (exit_intent w.router.instrument_id mark (or_else held w.router.size) "kill_shutdown") none
        [] w h,
  )

  pub enter-Holds :
      (mark target : Decimal) (snap : AccountSnapshot) (act : KillSwitch.Action)
      (pending : List Intent) (w : World E S)
      → Holds w
      → Holds (enter mark target snap act pending w).1
  unfolding enter record_decision
  enter-Holds mark target snap act pending w h =
      let verdicts =
        guard_verdicts w.router mark (entry_intent w.router mark target) snap pending in
      elim (Bool-cases (is_zero target || is_pause act)) [
        | inl held ↦ rw held h
        | inr asked ↦ rw asked (
            send_guarded-Holds (apply_guards (entry_intent w.router mark target) verdicts)
              (some target) verdicts w h)
      ]
    where
      send_guarded-Holds :
          (i : Option Intent) (t : Option Decimal) (vs : List (String × Verdict)) (v : World E S)
          → Holds v
          → Holds (send_guarded i t vs v).1
      send_guarded-Holds none t vs v g = g
      send_guarded-Holds (some i) t vs v g = send-Holds i t vs v g

  pub exit_now-Holds :
      (mark : Decimal) (reason : String) (t : Option Decimal) (w : World E S)
      → Holds w
      → Holds (exit_now mark reason t w).1
  unfolding exit_now exit_with
  exit_now-Holds mark reason t w h =
      send-Holds (exit_intent w.router.instrument_id mark w.router.size reason) t [] w h

  pub manage-Holds :
      (mark target : Decimal) (w : World E S) → Holds w → Holds (manage mark target w).1
  unfolding manage record_decision
  manage-Holds mark target w h =
      elim (Bool-cases (is_zero target || is_flip w.router.size target)) [
        | inl out ↦ rw out (exit_now-Holds mark _ (some target) w h)
        | inr held ↦ rw held h
      ]

  protect-Holds :
      (p : PositionView) (mark : Decimal) (w : World E S) → Holds w → Holds (protect p mark w).1
  protect-Holds p mark w h = ground (
    arith,
    exit_now-Holds mark "liq_distance" none w h,
    exit_now-Holds mark "funding_cost" none w h,
  )

  fast_position-Holds :
      (p : Option PositionView) (mark : Decimal) (w : World E S)
      → Holds w
      → Holds (fast_position p mark w).1
  fast_position-Holds none mark w h = h
  fast_position-Holds (some p) mark w h =
      >>=-keeps Holds (watch_margin p.liquidation_price mark) (λ _. protect p mark) w (ground arith)
        λ _ v g. protect-Holds p mark v g

  pub on_fast-Holds :
      (mark : Decimal) (snap : AccountSnapshot) (w : World E S)
      → Holds w
      → Holds (on_fast mark snap w).1
  unfolding on_fast set_state
  on_fast-Holds mark snap w h =
      ground (arith, fast_position-Holds (position snap w.router.instrument_id) mark w h)
