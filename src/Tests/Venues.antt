-- ===== src/Tests/Venues.antt =====
-- Runs of the state recovery, the live executor and the shadow executor.
use perpbot.Base.{
  ℕ, suc, true, false, Option, none, some, List, [], ◌∷◌, ◌≡◌, ◌≢◌, ◌↔◌, ◌⊎◌, refl, All, In, last?,
  pos,
}
use perpbot.Base.Dict.{lookup, nat_key, text_key}
use perpbot.Decimal.{Decimal, whole}
use perpbot.Execution.LiveExecutor.{
  VenueStatus, placed, Session, Live, VenueOrder, VenuePortfolio, stop_loss, read_account,
  read_stops,
}
use perpbot.Execution.LiveExecutor.Gated.{
  IsUnlocked, is_accepted, is_taken, open_live-IsUnlocked, live_submit_accepted, shadow_only_reads,
}
use perpbot.Execution.LiveExecutor.Orders.{
  open_live, gates_open, live_submit, live_cancel_stop, shadow_executor,
}
use perpbot.Execution.LiveExecutor.Stops.{cancel_stop_cancels}
use perpbot.Execution.Portfolio.{Book, for_each}
use perpbot.Execution.Recovery
use perpbot.Execution.Recovery.{
  recover, recover_from, recover_routers, recover_router, recover_rest, recover_positions,
  recover_unknown, recover_orders, cancel_foreign,
}
use perpbot.Execution.Recovery.Adopted.{recover_adopts}
use perpbot.Execution.Recovery.Reported.{is_returned, recover_fails}
use perpbot.Execution.Recovery.Turn.{IsRecoveredIn}
use perpbot.Execution.Router.Handlers.{bar_closed, kill, handle_all}
use perpbot.Execution.Router.Rows.{persist}
use perpbot.Execution.Router.Stops.{place_exchange_stop}
use perpbot.Execution.Types.{flat, open_position, AccountSnapshot, position}
use perpbot.Execution.World.{ok, err, failed, Result, Submitted, Executor}
use perpbot.Gates.{auto, true_text, live_orders_allowed}
use perpbot.Monitor.{alert, critical}
use perpbot.Risk.KillSwitch.{run}
use perpbot.Storage.{insert_alert, upsert_position_local}
use perpbot.Tests.{
  answer, empty_snapshot, empty_store, router_in, run_one, sample_bar, sample_position,
  sample_request, constant_target,
}

abbrev holding_snapshot : AccountSnapshot
holding_snapshot = record empty_snapshot { positions = sample_position ∷ [] }

-- An executor that shows one position without a stop, and answers `r` to a stop.
abbrev holding : Result (Unit {0}) → Executor (List Submitted)
holding r = record {
  is_shadow = false;
  submit_order = λ _ e. answer e;
  place_stop = λ _ _ e. (r, e);
  cancel_stop = λ _ e. (ok tt, e);
  cancel_order = λ _ e. (ok tt, e);
  snapshot = λ e. (ok holding_snapshot, e);
}

abbrev flat_book : Book (List Submitted) Decimal
flat_book = record {
  run_id = run_one;
  routers = router_in flat (pos 0) ∷ [];
  shared = record { store = empty_store; exec = []; now = 5 };
  start_equity = none;
  last_pnl_level = none;
  funding_seen = [];
  refused_reported = [];
}

position_adopted : (recover ⦃x = holding (ok tt)⦄ flat_book).0 ≡ ok ((7, open_position) ∷ [])
unfolding recover recover_from recover_routers recover_router recover_rest recover_positions
    recover_unknown recover_orders cancel_foreign for_each persist place_exchange_stop position
    upsert_position_local insert_alert
position_adopted = refl

recover_adopts_example :
    All (IsRecoveredIn [] holding_snapshot) (recover ⦃x = holding (ok tt)⦄ flat_book).1.routers
    × (((7, open_position) ∷ [])
        ≡ Recovery.states_of (recover ⦃x = holding (ok tt)⦄ flat_book).1.routers)
recover_adopts_example =
    recover_adopts ⦃x = holding (ok tt)⦄ holding_snapshot flat_book ((7, open_position) ∷ []) refl
      position_adopted

stop_impossible : (recover ⦃x = holding (err failed)⦄ flat_book).0 ≡ err failed
unfolding recover recover_from recover_routers recover_router for_each persist place_exchange_stop
    position
stop_impossible = refl

recover_fails_example :
    (failed ≡ failed)
    × ((is_returned (ok holding_snapshot) ≡ false)
        ⊎ ((i : Option ℕ) × (last?
                (recover ⦃x = holding (err failed)⦄ flat_book).1.shared.store.alerts
              ≡ some (alert critical "recovery_failed" i))))
recover_fails_example = recover_fails ⦃x = holding (err failed)⦄ flat_book failed stop_impossible

-- A session whose state counts the writes; it shows one stop and accepts every order.
abbrev shown_stop : VenueOrder
shown_stop = record {
  id = 9;
  client_order_id = none;
  instrument_id = 7;
  tp_sl = some (stop_loss (whole 45));
}

abbrev shown_portfolio : VenuePortfolio
shown_portfolio = record {
  total_account_value = whole 1000;
  positions = [];
  in_liquidation = false;
}

instance abbrev counting : Session ℕ
counting = record {
  fetch_portfolio = λ n. (ok shown_portfolio, n);
  fetch_open_orders = λ n. (ok (shown_stop ∷ []), n);
  place_order = λ _ n. (placed none VenueStatus.accepted, suc n);
  cancel_client_order = λ _ n. (ok tt, suc n);
  cancel_order_id = λ _ n. (ok tt, suc n);
  place_position_stop = λ _ _ n. (ok (some 9), suc n);
}

abbrev open_account : Live ℕ
open_account = record {
  session = 0;
  stop_ids = [];
  gate = λ i. live_orders_allowed i ((7, auto) ∷ []) (some true_text) true;
  now = 5;
}

abbrev traded_ids : List ℕ
traded_ids = 7 ∷ []

opened :
    open_live traded_ids (λ i. live_orders_allowed i ((7, auto) ∷ []) (some true_text) true) 0 5
    ≡ some open_account
unfolding open_live gates_open live_orders_allowed
opened = refl

open_live-IsUnlocked_example :
    (traded_ids ≢ []) × All (IsUnlocked ((7, auto) ∷ []) (some true_text) true) traded_ids
open_live-IsUnlocked_example =
    open_live-IsUnlocked traded_ids ((7, auto) ∷ []) (some true_text) true 0 5 open_account opened

live_submit_accepted_example :
    ((is_accepted (live_submit sample_request open_account).0 ≡ true) ↔ (
      ((open_account.gate 7).allowed ≡ true)
      × (is_taken (placed none VenueStatus.accepted) ≡ true)))
    × (((open_account.gate 7).allowed ≡ true)
        ⊎ ((live_submit sample_request open_account).1.session ≡ 0))
live_submit_accepted_example = live_submit_accepted sample_request open_account

shadow_only_reads_example :
    (handle_all ⦃x = shadow_executor⦄
      ((6, bar_closed (sample_bar ∷ []) empty_snapshot run []) ∷ (8, kill (whole 50) none) ∷ [])
      (record {
        router = router_in flat (pos 0);
        store = empty_store;
        exec = open_account;
        now = 5;
      })).exec.session
    ≡ 0
shadow_only_reads_example =
    shadow_only_reads (λ n. n ≡ 0)
      ((6, bar_closed (sample_bar ∷ []) empty_snapshot run []) ∷ (8, kill (whole 50) none) ∷ [])
      (record {
        router = router_in flat (pos 0);
        store = empty_store;
        exec = open_account;
        now = 5;
      })
      (λ n h. h) (λ n h. h) refl

stop_shown :
    lookup 7 (read_account shown_portfolio (shown_stop ∷ []) open_account).0.stops ≡ some (whole 45)
unfolding read_stops
stop_shown = refl

cancel_stop_cancels_example :
    (o : VenueOrder) × In o (shown_stop ∷ [])
    × (o.instrument_id ≡ 7)
    × (o.tp_sl ≡ some (stop_loss (whole 45)))
    × ((live_cancel_stop 7 (read_account shown_portfolio (shown_stop ∷ []) open_account).1).0
        ≡ (counting.cancel_order_id o.id 0).0)
    × ((live_cancel_stop 7
          (read_account shown_portfolio (shown_stop ∷ []) open_account).1).1.session
        ≡ (counting.cancel_order_id o.id 0).1)
cancel_stop_cancels_example =
    cancel_stop_cancels shown_portfolio (shown_stop ∷ []) open_account 7 (whole 45) stop_shown
