-- ===== src/Execution/Router/Calls/Kept.antt =====
-- What every call of the Executor interface keeps, every sequence of calls of the router keeps.
use perpbot.Base.{
  Bool, false, not, ◌&&◌, ◌||◌, Option, none, some, List, [], ◌∷◌, arith, Bool-cases, inl, inr,
  is_some, last?,
}
use perpbot.Base.Dict.{nat_key}
use perpbot.Decimal.{Decimal}
use perpbot.Execution.Router.Bars.{clamp_target, decide, at_mark, at_bar, on_bar}
use perpbot.Execution.Router.Events.{
  add_filled, is_exit_pending, is_pending_cid, is_state_liquidated, close_state, warn_if, on_update,
  late_fill, record_ours, entry_landed, position_closed, unexpected_fill, after_fill, on_fill,
}
use perpbot.Execution.Router.Exits.{is_due, give_up, check_pending}
use perpbot.Execution.Router.Handlers.{
  Call, bar_closed, tick, check, order_update, filled, kill, stop_trading, handle, handle_all,
}
use perpbot.Execution.Router.Rows.{
  is_flat, is_frozen, is_pending, persist, set_state, record_decision, update_order, record_fill,
  apply_fill,
}
use perpbot.Execution.Router.Stops.{settle_state, tell_strategy, tell_flat, adopt, adopt_and_settle}
use perpbot.Execution.Types.{Time, Intent, OrderRow, AccountSnapshot, FillUpdate, OrderUpdate, Bar}
use perpbot.Execution.World.{Executor, Strategy, World, emit, on_exec, ◌>>=◌, ◌>>◌}
use perpbot.Execution.World.Hoare.{>>=-keeps}
use perpbot.Monitor.{warn}
use perpbot.Risk.KillSwitch
use perpbot.Storage.{get_order}
use perpbot.Execution.Router.Calls.{
  KeptByCalls, replace_stop-Holds, halt-Holds, adopt-Holds, shutdown-Holds, enter-Holds,
  exit_now-Holds, manage-Holds, on_fast-Holds,
}

module _ {E S : Type 0} ⦃x : Executor E⦄ ⦃y : Strategy S⦄ (Q : E → Type 0)
    (k : KeptByCalls E x Q) where
  decide-Holds :
      (mark : Decimal) (history : List Bar) (snap : AccountSnapshot) (act : KillSwitch.Action)
      (pending : List Intent) (w : World E S)
      → Q w.exec
      → Q (decide mark history snap act pending w).1.exec
  unfolding decide
  decide-Holds mark history snap act pending w h =
      let (t, s) = y.target history w.router.strategy in
      let w' : World E S = record w { router = record (w.router) { strategy = s } } in
      elim (Bool-cases (is_flat w.router.state)) [
        | inl f ↦ rw f (enter-Holds Q k mark (clamp_target t) snap act pending w' h)
        | inr n ↦ rw n (manage-Holds Q k mark (clamp_target t) w' h)
      ]

  at_mark-Holds :
      (mark : Option Decimal) (complete : Bool) (history : List Bar) (snap : AccountSnapshot)
      (act : KillSwitch.Action) (pending : List Intent) (w : World E S)
      → Q w.exec
      → Q (at_mark mark complete history snap act pending w).1.exec
  unfolding record_decision
  at_mark-Holds none complete history snap act pending w h = h
  at_mark-Holds (some m) complete history snap act pending w h = ground (
    arith,
    shutdown-Holds Q k m none w h,
    exit_now-Holds Q k m "data_gap" none w h,
    decide-Holds m history snap act pending w h,
  )

  on_bar-Holds :
      (history : List Bar) (snap : AccountSnapshot) (act : KillSwitch.Action)
      (pending : List Intent) (w : World E S)
      → Q w.exec
      → Q (on_bar history snap act pending w).1.exec
  unfolding on_bar record_decision
  on_bar-Holds history snap act pending w h =
      elim (Bool-cases (is_frozen w.router.state || is_pending w.router.state)) [
        | inl f ↦ rw f h
        | inr n ↦ rw n (at_bar-Holds (last? history) h)
      ]
    where
      at_bar-Holds : (b : Option Bar) → Q w.exec → Q (at_bar b history snap act pending w).1.exec
      at_bar-Holds none h = h
      at_bar-Holds (some b) h = at_mark-Holds b.close b.complete history snap act pending w h

  tell_strategy-Holds : (w : World E S) → Q w.exec → Q (tell_strategy w).1.exec
  tell_strategy-Holds w h = ground (arith, k.cancel_stop_keeps w.router.instrument_id w.exec h)

  settle_state-Holds : (w : World E S) → Q w.exec → Q (settle_state w).1.exec
  unfolding set_state
  settle_state-Holds w h = ground arith

  adopt_and_settle-Holds :
      (snap : AccountSnapshot) (w : World E S) → Q w.exec → Q (adopt_and_settle snap w).1.exec
  unfolding adopt_and_settle
  adopt_and_settle-Holds snap w h =
      >>=-keeps (λ v. Q v.exec) (adopt snap) (λ _. settle_state >> tell_strategy) w
        (adopt-Holds Q k snap w h)
        λ _ v g.
          >>=-keeps (λ v. Q v.exec) settle_state (λ _. tell_strategy) v (settle_state-Holds v g)
            λ _ u f. tell_strategy-Holds u f

  check_pending-Holds :
      (snap : AccountSnapshot) (w : World E S) → Q w.exec → Q (check_pending snap w).1.exec
  unfolding check_pending
  check_pending-Holds snap w h =
      elim (Bool-cases
        (not (is_pending w.router.state) || not (is_due w.router.pending_since w.now))) [
          | inl f ↦ rw f h
          | inr n ↦ rw n (
              >>=-keeps (λ v. Q v.exec) (give_up w.router.pending_cid) (λ _. adopt_and_settle snap)
                (emit warn "pending_timeout" w).1 (ground arith)
                (λ _ v g. adopt_and_settle-Holds snap v g))
        ]

  on_update-Holds : (ev : OrderUpdate) (w : World E S) → Q w.exec → Q (on_update ev w).1.exec
  unfolding on_update set_state
  on_update-Holds ev w h = ground arith

  late_fill-Holds : (ev : FillUpdate) (w : World E S) → Q w.exec → Q (late_fill ev w).1.exec
  unfolding late_fill
  late_fill-Holds ev w h =
      >>=-keeps (λ v. Q v.exec) (on_exec x.snapshot) adopt_and_settle
        (update_order ev.client_order_id false (add_filled ev.quantity)
          (emit warn "late_fill" w).1).1
        (k.snapshot_keeps w.exec h) adopt_and_settle-Holds

  close_state-Holds : (w : World E S) → Q w.exec → Q (close_state w).1.exec
  unfolding set_state persist
  close_state-Holds w h = ground arith

  position_closed-Holds :
      (ours : Bool) (ev : FillUpdate) (w : World E S)
      → Q w.exec
      → Q (position_closed ours ev w).1.exec
  unfolding position_closed
  position_closed-Holds ours ev w h =
      let r = w.router in
      let fired =
        not (is_exit_pending r.state && is_pending_cid r.pending_cid ev.client_order_id)
        && not ours
        && not (is_state_liquidated r.state) in
      let w' : World E S = record w {
        router = record r { pending_cid = none; stop_trigger = none };
      } in
      >>=-keeps (λ v. Q v.exec) (on_exec (x.cancel_stop r.instrument_id))
        (λ _. close_state >> (tell_flat >> warn_if fired)) w'
        (k.cancel_stop_keeps r.instrument_id w.exec h)
        λ _ v g.
          >>=-keeps (λ v. Q v.exec) close_state (λ _. tell_flat >> warn_if fired) v
            (close_state-Holds v g) λ _ u f. ground arith

  entry_landed-Holds : (w : World E S) → Q w.exec → Q (entry_landed w).1.exec
  unfolding entry_landed set_state
  entry_landed-Holds w h = replace_stop-Holds Q k _ h

  unexpected_fill-Holds : (w : World E S) → Q w.exec → Q (unexpected_fill w).1.exec
  unfolding unexpected_fill set_state
  unexpected_fill-Holds w h = elim (Bool-cases (is_flat w.router.state)) [
    | inl f ↦ rw f (replace_stop-Holds Q k _ h)
    | inr n ↦ rw n h
  ]

  after_fill-Holds :
      (ours : Bool) (ev : FillUpdate) (w : World E S) → Q w.exec → Q (after_fill ours ev w).1.exec
  unfolding after_fill
  after_fill-Holds ours ev w h = ground (
    arith,
    entry_landed-Holds w h,
    position_closed-Holds ours ev w h,
    replace_stop-Holds Q k (emit warn "late_fill" w).1 h,
    unexpected_fill-Holds w h,
  )

  record_ours-Holds :
      (row : Option OrderRow) (ev : FillUpdate) (w : World E S)
      → Q w.exec
      → Q (record_ours row ev w).1.exec
  unfolding record_fill
  record_ours-Holds none ev w h = h
  record_ours-Holds (some row) ev w h = ground arith

  on_fill-Holds : (ev : FillUpdate) (w : World E S) → Q w.exec → Q (on_fill ev w).1.exec
  unfolding on_fill apply_fill
  on_fill-Holds ev w h =
      let row = get_order ev.client_order_id w.store in
      let applied =
        >>=-keeps (λ v. Q v.exec) (apply_fill ev)
          (λ _. record_ours row ev >>= λ _. after_fill (is_some row) ev) w h
          λ _ v g.
            >>=-keeps (λ v. Q v.exec) (record_ours row ev) (λ _. after_fill (is_some row) ev) v
              (record_ours-Holds row ev v g) λ _ u f. after_fill-Holds (is_some row) ev u f in
      ground (arith, late_fill-Holds ev w h, applied)

  handle-Holds : (c : Call) (w : World E S) → Q w.exec → Q (handle c w).1.exec
  unfolding handle
  handle-Holds (bar_closed history snap act pending) w h = on_bar-Holds history snap act pending w h
  handle-Holds (tick mark snap) w h = on_fast-Holds Q k mark snap w h
  handle-Holds (check snap) w h = check_pending-Holds snap w h
  handle-Holds (order_update ev) w h = on_update-Holds ev w h
  handle-Holds (filled ev) w h = on_fill-Holds ev w h
  handle-Holds (kill mark held) w h = shutdown-Holds Q k mark held w h
  handle-Holds stop_trading w h = halt-Holds Q k w h

  -- What every call of the interface keeps holds of the executor after every sequence of calls of the
  -- router, also where some of them raise.
  pub handle_all_keeps :
      (cs : List (Time × Call)) (w : World E S) → Q w.exec → Q (handle_all cs w).exec
  unfolding handle_all
  handle_all_keeps [] w h = h
  handle_all_keeps ((now, c) ∷ cs) w h =
      handle_all_keeps cs (handle c (record w { now = now })).1
        (handle-Holds c (record w { now = now }) h)
