-- ===== src/Tests/Routers.antt =====
-- Runs of the router, the portfolio and the reconciliation.
use perpbot.Base.{
  ◌+◌, ℕ, true, false, none, some, List, [], ◌∷◌, ◌≡◌, refl, ◌⊎◌, All, if◌then◌else◌, ◌==◌, pos,
  ◌+ℤ◌, ◌-ℤ◌, neg_ℤ, eqb_text, is_some,
}
use perpbot.Base.Dict.{Dict, lookup, nat_key, text_key}
use perpbot.Decimal.{Decimal, whole, ◌*ᴰ◌, ◌/ᴰ◌, round_half_even, quantize_down}
use perpbot.Execution.ClientId.{cid, cid_number}
use perpbot.Execution.ClientId.Laws.{cid_number-cid}
use perpbot.Execution.Types.{
  flat, entry_pending, open_position, halted, AccountSnapshot, PositionLocalRow, position,
}
use perpbot.Execution.World.{World, Submitted, ok, Submitted, acked, timed_out}
use perpbot.Execution.Router.Rows.{
  set_state, persist, record_decision, update_row, is_frozen, is_zero, fill_delta, local_row,
}
use perpbot.Execution.Router.Handlers.{bar_closed, filled, kill, handle_all}
use perpbot.Execution.Router.Frozen.{state_of, handle_all_frozen}
use perpbot.Execution.Router.Bars.{on_bar, decide, enter, clamp_target}
use perpbot.Execution.Router.Exits.{shutdown, exit_with}
use perpbot.Risk.LiquidationGuard.{vet_entry, leverage_room, floor_room, existing_notional, settle}
use perpbot.Risk.PortfolioExposure.{vet_exposure, net_notional}
use perpbot.Execution.Router.Entries.{IsEntry, on_bar-IsEntry}
use perpbot.Execution.Router.Events.{on_fill}
use perpbot.Execution.Router.Fills.{size_after, on_fill-size}
use perpbot.Execution.Router.Send.{
  apply_guards, send, after_submit, prepare, landed, submit_with_recovery, adopted_ack, new_row,
  pending_state, size_of,
}
use perpbot.Execution.Router.Reseeded.{IsFiled, restarted_rows}
use perpbot.Execution.Router.Rows.{load_local}
use perpbot.Execution.Router.Sending.{IsUnissued}
use perpbot.Execution.Router.Retried.{TimedOut, submit_timed_out}
use perpbot.Execution.Portfolio.{Book, for_each}
use perpbot.Execution.Portfolio.Drive.{shutdown_all}
use perpbot.Execution.Portfolio.Shutdown.{IsFrozen, shutdown_all_freezes}
use perpbot.Execution.Portfolio.{at_router}
use perpbot.Execution.Portfolio.Reconcile.{respond, respond_all, reconcile}
use perpbot.Execution.Portfolio.Reconcile.Freezes.{reconcile_freezes}
use perpbot.Execution.Portfolio.Reconcile.Steps.{IsFrozenAt}
use perpbot.Execution.Router.Stops.{halt}
use perpbot.Execution.Reconciliation.{
  size, all_keys, add_keys, add_sorted, check_all, check_one, compare_rows, orphan_stops,
  unknown_orders, positions_by_id, diff, is_known, drift_tolerance,
}
use perpbot.Execution.Reconciliation.Diff.{Agrees, diff_nil}
use perpbot.Risk.KillSwitch.{run}
use perpbot.Storage.{get_order}
use perpbot.Tests.{
  empty_snapshot, empty_store, router_in, world_in, sample_bar, sample_fill, sample_intent,
  sample_request, sample_ack, sample_position, run_one, scripted, constant_target,
}

handle_all_frozen_example :
    is_frozen
      (handle_all
        ((6, bar_closed (sample_bar ∷ []) empty_snapshot run [])
          ∷ (7, filled sample_fill)
          ∷ (8, kill (whole 50) none)
          ∷ [])
        (world_in halted (pos 0) [])).router.state
    ≡ true
handle_all_frozen_example =
    handle_all_frozen
      ((6, bar_closed (sample_bar ∷ []) empty_snapshot run [])
        ∷ (7, filled sample_fill)
        ∷ (8, kill (whole 50) none)
        ∷ [])
      (world_in halted (pos 0) []) refl

on_fill-size_example : size_after (on_fill sample_fill (world_in flat (pos 0) [])) ≡ (
    if sample_fill.instrument_id == 7
    then pos 0 +ℤ fill_delta sample_fill.side sample_fill.quantity
    else pos 0)
unfolding get_order
on_fill-size_example = on_fill-size sample_fill (world_in flat (pos 0) []) refl

cid_number-cid_example : cid_number (cid run_one 7 12) ≡ some 12
cid_number-cid_example = cid_number-cid run_one 7 12

-- A store with the fourth order of the run, and a router that lost its counter.
abbrev restarting : World (List Submitted) Decimal
restarting = record (world_in flat (pos 0) []) {
  store = record empty_store {
    orders = (cid run_one 7 4, new_row (cid run_one 7 4) 7 sample_intent 3) ∷ [];
  };
}

restarted_rows_example :
    let u = (load_local (local_row restarting.router 3) restarting).1 in
    let id = cid run_one 7 (u.router.seq + 1) in
    let v = (prepare sample_intent (some (whole 1)) [] u).1 in
    (get_order id restarting.store ≡ none)
    × (get_order (cid run_one 7 5) v.store ≡ (
        if eqb_text id (cid run_one 7 5)
        then some (new_row id 7 sample_intent restarting.now)
        else get_order (cid run_one 7 5) restarting.store))
    × (lookup 7 v.store.positions ≡ some (local_row v.router restarting.now))
    × (v.router.state ≡ pending_state sample_intent.reduce_only)
    × (v.exec ≡ restarting.exec)
    × IsUnissued v
    × IsFiled run_one 7 v.store.orders
unfolding load_local
restarted_rows_example =
    restarted_rows (local_row restarting.router 3) sample_intent (some (whole 1)) [] restarting
      (cid run_one 7 5) (refl, λ n e. refl, tt)

-- The fifth order follows the fourth.
fifth_order : (load_local (local_row restarting.router 3) restarting).1.router.seq ≡ 4
unfolding load_local perpbot.Execution.Router.Rows.max_order_seq
    perpbot.Execution.ClientId.cid_number perpbot.Execution.ClientId.cid
    perpbot.Execution.ClientId.last_part perpbot.Execution.ClientId.tail_from
    perpbot.Execution.ClientId.show perpbot.Execution.ClientId.show_fuel
fifth_order = refl

submit_timed_out_example :
    let w = world_in entry_pending (pos 0) (timed_out ∷ acked sample_ack ∷ []) in
    TimedOut sample_request
      (pos 0)
      empty_snapshot
      w
      (acked sample_ack ∷ [])
      (submit_with_recovery sample_request (pos 0) w)
submit_timed_out_example =
    submit_timed_out sample_request (pos 0)
      (world_in entry_pending (pos 0) (timed_out ∷ acked sample_ack ∷ [])) empty_snapshot refl refl

-- The position that moved by two is the order that landed.
adopted_not_resent :
    let w = world_in entry_pending (pos 0) (timed_out ∷ []) in
    let r = submit_with_recovery sample_request (neg_ℤ (whole 2)) w in
    (r.0 ≡ ok (some (adopted_ack sample_request w.now))) × (r.1.exec ≡ [])
unfolding submit_with_recovery landed position ◌-ℤ◌
adopted_not_resent = (refl, refl)

entry_sent :
    state_of (
      on_bar
        (sample_bar ∷ [])
        empty_snapshot
        run
        []
        (world_in flat (pos 0) (acked sample_ack ∷ [])))
    ≡ entry_pending
unfolding on_bar decide enter clamp_target apply_guards vet_entry leverage_room ◌-ℤ◌ ◌*ᴰ◌
    existing_notional ◌+ℤ◌ round_half_even floor_room ◌/ᴰ◌ settle vet_exposure net_notional
    quantize_down send after_submit prepare submit_with_recovery set_state persist record_decision
    update_row
entry_sent = refl

on_bar-IsEntry_example :
    IsEntry (sample_bar ∷ []) empty_snapshot run [] (world_in flat (pos 0) (acked sample_ack ∷ []))
on_bar-IsEntry_example =
    on_bar-IsEntry (sample_bar ∷ []) empty_snapshot run []
      (world_in flat (pos 0) (acked sample_ack ∷ [])) (λ h. cc) entry_sent

abbrev sample_book : Book (List Submitted) Decimal
sample_book = record {
  run_id = run_one;
  routers = router_in flat (pos 0) ∷ router_in open_position (whole 2) ∷ [];
  shared = record { store = empty_store; exec = acked sample_ack ∷ acked sample_ack ∷ []; now = 5 };
  start_equity = some (whole 2000);
  last_pnl_level = none;
  funding_seen = [];
  refused_reported = [];
}

abbrev held_snapshot : AccountSnapshot
held_snapshot = record empty_snapshot {
  positions = sample_position ∷ [];
  stops = (7, whole 40) ∷ [];
}

shutdown_returns : (shutdown_all held_snapshot [] sample_book).0 ≡ ok tt
unfolding shutdown_all for_each shutdown position exit_with send after_submit submit_with_recovery
    prepare record_decision set_state
shutdown_returns = refl

shutdown_all_freezes_example : All IsFrozen (shutdown_all held_snapshot [] sample_book).1.routers
shutdown_all_freezes_example = shutdown_all_freezes held_snapshot [] sample_book shutdown_returns

abbrev stored_positions : Dict ℕ PositionLocalRow
stored_positions = (7, local_row (router_in open_position (whole 2)) 5) ∷ []

diff_nil_example :
    let by_id = positions_by_id [] held_snapshot.positions in
    let rsize = size_of (lookup 7 by_id) in
    let stop = lookup 7 held_snapshot.stops in
    Agrees (lookup 7 stored_positions) rsize stop
    × ((is_some stop ≡ false) ⊎ (is_zero rsize ≡ false))
    × All (λ id. is_known run_one [] id ≡ true) held_snapshot.open_orders
unfolding diff all_keys add_keys add_sorted positions_by_id check_all check_one compare_rows
    orphan_stops unknown_orders
diff_nil_example = diff_nil stored_positions held_snapshot run_one [] drift_tolerance 7 refl

-- The stored row holds two units; the exchange holds none.
abbrev surprised_book : Book (List Submitted) Decimal
surprised_book = record sample_book {
  shared = record {
    store = record empty_store { positions = stored_positions };
    exec = [];
    now = 5;
  };
}

mismatch_found : (reconcile surprised_book).0 ≡ ok (size 7 (whole 2) (pos 0) ∷ [])
unfolding reconcile diff all_keys add_keys add_sorted positions_by_id check_all check_one
    compare_rows orphan_stops unknown_orders respond_all respond at_router halt set_state persist
mismatch_found = refl

reconcile_freezes_example : IsFrozenAt 7 (reconcile surprised_book).1.routers
reconcile_freezes_example =
    reconcile_freezes 7 surprised_book (size 7 (whole 2) (pos 0) ∷ []) mismatch_found refl
