-- ===== src/Execution/Router/Frozen.antt =====
-- A frozen router: no handler leaves HALTED or LIQUIDATED.
use perpbot.Base.{
  ◌+◌, Bool, true, false, not, ◌&&◌, Option, none, some, or_else, String, List, [], ◌∷◌, ◌≡◌, refl,
  ap, arith, inl, ◌⊎◌, is_some,
}
use perpbot.Base.Dict.{nat_key}
use perpbot.Decimal.{Decimal}
use perpbot.Execution.ClientId.{cid}
use perpbot.Execution.Types.{
  State, AccountSnapshot, Text, OrderRow, OrderRequest, OrderAck, FillUpdate, OrderUpdate, Intent,
  Time,
}
use perpbot.Execution.Router.Rows.{
  is_frozen, persist, set_state, record_decision, update_order, record_fill, apply_fill,
}
use perpbot.Execution.Router.Stops.{
  replace_stop, halt, adopt, adopt_and_settle, settle_state, tell_strategy, tell_flat,
}
use perpbot.Execution.Router.Send.{
  submit_with_recovery, prepare, send, after_submit, submit_failed, refused_status, pending_state,
  request,
}
use perpbot.Execution.Router.Exits.{skip_note, exit_intent, exit_with, shutdown, check_pending}
use perpbot.Execution.Router.Bars.{on_bar, on_fast}
use perpbot.Execution.Router.Events.{
  add_filled, record_ours, close_state, warn_if, is_exit_pending, is_pending_cid,
  is_state_liquidated, on_update, late_fill, position_closed, unexpected_fill, after_fill, on_fill,
}
use perpbot.Execution.World.{
  Error, Result, ok, err, Executor, Strategy, Router, World, on_exec, emit, ◌>>=◌, ◌>>◌,
}
use perpbot.Execution.World.Hoare.{>>=-keeps}
use perpbot.Monitor.{critical, warn}
use perpbot.Execution.Router.Handlers.{
  Call, bar_closed, tick, check, order_update, filled, kill, stop_trading, handle, handle_all,
}
use perpbot.Storage.{get_order}
use perpbot.Risk.Verdict.{Verdict}

abbrev IsFrozenAt : {E S : Type 0} → World E S → Type 0
IsFrozenAt w = is_frozen w.router.state ≡ true

abbrev pub state_of : {E S A : Type 0} → Result A × World E S → State
state_of (_, w) = w.router.state

-- Helpers that leave the state alone.
module _ {E S : Type 0} where
  pub record_decision-state :
      (t : Option Decimal) (vs : List (String × Verdict)) (i : Option Intent) (c : Option Text)
      (n : String) (w : World E S)
      → state_of (record_decision t vs i c n w) ≡ w.router.state
  unfolding record_decision
  record_decision-state t vs i c n w = refl

  pub record_fill-state :
      (row : OrderRow) (ev : FillUpdate) (w : World E S)
      → state_of (record_fill row ev w) ≡ w.router.state
  unfolding record_fill
  record_fill-state row ev w = ground arith

  pub apply_fill-state :
      (ev : FillUpdate) (w : World E S) → state_of (apply_fill ev w) ≡ w.router.state
  unfolding apply_fill
  apply_fill-state ev w = refl

module _ {E S : Type 0} ⦃x : Executor E⦄ where
  pub replace_stop-state : (w : World E S) → state_of (replace_stop w) ≡ w.router.state
  unfolding replace_stop
  replace_stop-state w = ground arith

  pub adopt-state :
      (snap : AccountSnapshot) (w : World E S) → state_of (adopt snap w) ≡ w.router.state
  unfolding adopt
  adopt-state snap w = ground arith

  halt_ends : (w : World E S) → is_frozen (state_of (halt w)) ≡ true
  unfolding halt
  halt_ends w = ground arith

  -- Sending restores the state before, leaves the order in flight, or freezes; it raises only frozen.
  submit-router :
      (req : OrderRequest) (d : Decimal) (w : World E S)
      → (submit_with_recovery req d w).1.router ≡ w.router
  unfolding submit_with_recovery
  submit-router req d w = ground arith

  submit_failed_frozen :
      (k : Text) (er : Error) (w : World E S) → is_frozen (state_of (submit_failed k er w)) ≡ true
  unfolding submit_failed
  submit_failed_frozen k er w =
      let w' : World E S =
        (emit critical "submit_error"
          (update_order k false
            (λ r. record r { status = refused_status er; reason = "submit error" }) w).1).1 in
      >>=-keeps IsFrozenAt halt (λ _. on_exec x.snapshot >>= adopt) w' (halt_ends w')
        λ _ v h. >>=-keeps IsFrozenAt (on_exec x.snapshot) adopt v h λ snap u g. rw adopt-state g

  after_submit_ends :
      (k : Text) (prior : State) (i : Intent) (res : Result (Option OrderAck)) (w : World E S)
      → let r = after_submit k prior i res w in
        (is_frozen (state_of r) ≡ true)
        ⊎ ((r.0 ≡ ok tt) × ((state_of r ≡ prior) ⊎ (state_of r ≡ w.router.state)))
  unfolding after_submit set_state
  after_submit_ends k prior i (err er) w = inl (submit_failed_frozen k er w)
  after_submit_ends k prior i (ok none) w = inl (halt_ends _)
  after_submit_ends k prior i (ok (some a)) w = ground arith

  prepare-state :
      (i : Intent) (t : Option Decimal) (vs : List (String × Verdict)) (w : World E S)
      → state_of (prepare i t vs w) ≡ pending_state i.reduce_only
  unfolding prepare record_decision set_state
  prepare-state i t vs w = refl

  -- Sending ends frozen, or returns with the state before it or with the order in flight.
  pub send_ends :
      (i : Intent) (t : Option Decimal) (vs : List (String × Verdict)) (w : World E S)
      → let r = send i t vs w in
        (is_frozen (state_of r) ≡ true)
        ⊎ ((r.0 ≡ ok tt)
            × ((state_of r ≡ w.router.state) ⊎ (state_of r ≡ pending_state i.reduce_only)))
  unfolding send
  send_ends i t vs w =
      let r = w.router in
      let id = cid r.run_id r.instrument_id (r.seq + 1) in
      let w₁ = (prepare i t vs w).1 in
      let req = request id r.instrument_id i w.now in
      let (res, w₂) = submit_with_recovery req r.size w₁ in
      ground (
        arith,
        prepare-state i t vs w,
        ap (λ (q : Router S). q.state) (submit-router req r.size w₁),
        after_submit_ends id r.state i res w₂,
      )

  -- A shutdown leaves the router frozen, whatever happens on the way, unless it did nothing.
  pub shutdown_freezes :
      (mark : Decimal) (held : Option Decimal) (w : World E S)
      → is_frozen (state_of (shutdown mark held w)) ≡ true
  unfolding shutdown set_state exit_with
  shutdown_freezes mark held w = ground (
    arith,
    send_ends (exit_intent w.router.instrument_id mark (or_else held w.router.size) "kill_shutdown")
        none [] w,
  )

module _ {E S : Type 0} ⦃x : Executor E⦄ ⦃y : Strategy S⦄ where
  tell_strategy-state : (w : World E S) → state_of (tell_strategy w) ≡ w.router.state
  tell_strategy-state w = ground arith

  settle_state_frozen : (w : World E S) → IsFrozenAt w → IsFrozenAt (settle_state w).1
  settle_state_frozen w h = rw h h

  adopt_and_settle_frozen :
      (snap : AccountSnapshot) (w : World E S)
      → IsFrozenAt w
      → IsFrozenAt (adopt_and_settle snap w).1
  unfolding adopt_and_settle
  adopt_and_settle_frozen snap w h =
      >>=-keeps IsFrozenAt (adopt snap) (λ _. settle_state >> tell_strategy) w (rw adopt-state h)
        λ _ v g.
          >>=-keeps IsFrozenAt settle_state (λ _. tell_strategy) v (settle_state_frozen v g)
            λ _ u k. rw tell_strategy-state k

  on_update_frozen :
      (ev : OrderUpdate) (w : World E S) → IsFrozenAt w → IsFrozenAt (on_update ev w).1
  unfolding on_update
  on_update_frozen ev w h = ground arith

  late_fill_frozen :
      (ev : FillUpdate) (w : World E S) → IsFrozenAt w → IsFrozenAt (late_fill ev w).1
  unfolding late_fill
  late_fill_frozen ev w h =
      let w' : World E S =
        (update_order ev.client_order_id false (add_filled ev.quantity)
          (emit warn "late_fill" w).1).1 in
      >>=-keeps IsFrozenAt (on_exec x.snapshot) adopt_and_settle w' h adopt_and_settle_frozen

  close_state_frozen : (w : World E S) → IsFrozenAt w → IsFrozenAt (close_state w).1
  unfolding persist
  close_state_frozen w h = rw h h

  warn_if-state : (b : Bool) (w : World E S) → state_of (warn_if b w) ≡ w.router.state
  warn_if-state true w = refl
  warn_if-state false w = refl

  position_closed_frozen :
      (ours : Bool) (ev : FillUpdate) (w : World E S)
      → IsFrozenAt w
      → IsFrozenAt (position_closed ours ev w).1
  unfolding position_closed persist
  position_closed_frozen ours ev w h =
      let r = w.router in
      let fired =
        not (is_exit_pending r.state && is_pending_cid r.pending_cid ev.client_order_id)
        && not ours
        && not (is_state_liquidated r.state) in
      let w' : World E S = record w {
        router = record r { pending_cid = none; stop_trigger = none };
      } in
      >>=-keeps IsFrozenAt (on_exec (x.cancel_stop r.instrument_id))
        (λ _. close_state >> (tell_flat >> warn_if fired)) w' h
        λ _ v g.
          >>=-keeps IsFrozenAt close_state (λ _. tell_flat >> warn_if fired) v
            (close_state_frozen v g) λ _ u k. rw warn_if-state k

  unexpected_fill_frozen : (w : World E S) → IsFrozenAt w → IsFrozenAt (unexpected_fill w).1
  unfolding unexpected_fill
  unexpected_fill_frozen w h = ground arith

  after_fill_frozen :
      (ours : Bool) (ev : FillUpdate) (w : World E S)
      → IsFrozenAt w
      → IsFrozenAt (after_fill ours ev w).1
  unfolding after_fill
  after_fill_frozen ours ev w h = ground (
    arith,
    replace_stop-state (emit warn "late_fill" w).1,
    position_closed_frozen ours ev w h,
    unexpected_fill_frozen w h,
  )

  on_fill_frozen : (ev : FillUpdate) (w : World E S) → IsFrozenAt w → IsFrozenAt (on_fill ev w).1
  unfolding on_fill
  on_fill_frozen ev w h =
      let row = get_order ev.client_order_id w.store in
      let applied =
        >>=-keeps IsFrozenAt (apply_fill ev)
          (λ _. record_ours row ev >>= λ _. after_fill (is_some row) ev) w (rw apply_fill-state h)
          λ _ v g.
            >>=-keeps IsFrozenAt (record_ours row ev) (λ _. after_fill (is_some row) ev) v
              (ours row v g) λ _ u k. after_fill_frozen (is_some row) ev u k in
      ground (arith, late_fill_frozen ev w h, applied)
    where
      ours :
          (row : Option OrderRow) (v : World E S)
          → IsFrozenAt v
          → IsFrozenAt (record_ours row ev v).1
      ours none v g = g
      ours (some row) v g = rw record_fill-state g

  -- No call of Portfolio on a frozen router unfreezes it.
  handle_frozen : (c : Call) (w : World E S) → IsFrozenAt w → IsFrozenAt (handle c w).1
  unfolding handle on_bar on_fast check_pending halt
  handle_frozen (bar_closed history snap k pending) w h =
      ground (arith, record_decision-state none [] none none (skip_note w.router.state) w)
  handle_frozen (tick mark snap) w h = ground arith
  handle_frozen (check snap) w h = ground arith
  handle_frozen (order_update ev) w h = on_update_frozen ev w h
  handle_frozen (filled ev) w h = on_fill_frozen ev w h
  handle_frozen (kill mark held) w h = shutdown_freezes mark held w
  handle_frozen stop_trading w h = ground arith

  -- Once frozen, a router is frozen after every sequence of calls, also where some of them raise: only
  -- clear_halt, which no handler calls, leaves HALTED and LIQUIDATED.
  pub handle_all_frozen :
      (cs : List (Time × Call)) (w : World E S)
      → is_frozen w.router.state ≡ true
      → is_frozen (handle_all cs w).router.state ≡ true
  unfolding handle_all
  handle_all_frozen [] w h = h
  handle_all_frozen ((now, c) ∷ cs) w h =
      handle_all_frozen cs (handle c (record w { now = now })).1
        (handle_frozen c (record w { now = now }) h)
