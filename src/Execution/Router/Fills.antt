-- ===== src/Execution/Router/Fills.antt =====
-- What a fill does to the router's position: on_fill applies every fill of the instrument once, and a
-- late fill of an order that was given up on takes the exchange's size instead.
use perpbot.Base.{
  Bool, false, not, ◌&&◌, Option, none, some, ◌≡◌, refl, if◌then◌else◌, arith, ◌==◌, ◌+ℤ◌, is_some,
  ◌∙◌,
}
use perpbot.Decimal.{Decimal}
use perpbot.Execution.Types.{FillUpdate, OrderRow, open_position}
use perpbot.Execution.Router.Rows.{fill_delta, persist, set_state, record_fill, apply_fill}
use perpbot.Execution.Router.Stops.{replace_stop, tell_flat}
use perpbot.Execution.Router.Events.{
  row_gave_up, is_exit_pending, is_state_liquidated, open_if_flat, is_pending_cid, record_ours,
  entry_landed, position_closed, unexpected_fill, after_fill, on_fill, close_state, warn_if,
}
use perpbot.Execution.World.{Result, Executor, Strategy, World, on_exec, emit, ◌>>◌}
use perpbot.Execution.World.Hoare.{>>=-keeps}
use perpbot.Monitor.{warn}
use perpbot.Storage.{get_order}

abbrev pub size_after : {E S A : Type 0} → Result A × World E S → Decimal
size_after (_, w) = w.router.size

module _ {E S : Type 0} ⦃x : Executor E⦄ ⦃y : Strategy S⦄ where
  replace_stop-size : (w : World E S) → size_after (replace_stop w) ≡ w.router.size
  unfolding replace_stop
  replace_stop-size w = ground arith

  record_ours-size :
      (row : Option OrderRow) (ev : FillUpdate) (w : World E S)
      → size_after (record_ours row ev w) ≡ w.router.size
  unfolding record_fill
  record_ours-size none ev w = refl
  record_ours-size (some row) ev w = ground arith

  close_state-size : (w : World E S) → size_after (close_state w) ≡ w.router.size
  unfolding persist set_state
  close_state-size w = ground arith

  warn_if-size : (b : Bool) (w : World E S) → size_after (warn_if b w) ≡ w.router.size
  warn_if-size b w = ground arith

  apply_fill-size :
      (ev : FillUpdate) (w : World E S)
      → size_after (apply_fill ev w) ≡ w.router.size +ℤ fill_delta ev.side ev.quantity
  unfolding apply_fill
  apply_fill-size ev w = refl

  entry_landed-size : (w : World E S) → size_after (entry_landed w) ≡ w.router.size
  unfolding entry_landed set_state persist
  entry_landed-size w = replace_stop-size _

  open_if_flat-size : (w : World E S) → size_after (open_if_flat w) ≡ w.router.size
  unfolding set_state persist
  open_if_flat-size w = ground (arith, replace_stop-size (set_state open_position w).1)

  unexpected_fill-size : (w : World E S) → size_after (unexpected_fill w) ≡ w.router.size
  unfolding unexpected_fill
  unexpected_fill-size w = open_if_flat-size (emit warn "unexpected_fill" w).1

  position_closed-size :
      (ours : Bool) (ev : FillUpdate) (w : World E S)
      → size_after (position_closed ours ev w) ≡ w.router.size
  unfolding position_closed
  position_closed-size ours ev w =
      let r = w.router in
      let fired =
        not (is_exit_pending r.state && is_pending_cid r.pending_cid ev.client_order_id)
        && not ours
        && not (is_state_liquidated r.state) in
      let w' : World E S = record w {
        router = record r { pending_cid = none; stop_trigger = none };
      } in
      let Same : World E S → Type 0 = λ v. v.router.size ≡ w.router.size in
      >>=-keeps Same (on_exec (x.cancel_stop r.instrument_id))
        (λ _. close_state >> (tell_flat >> warn_if fired)) w' refl
        λ _ v g.
          >>=-keeps Same close_state (λ _. tell_flat >> warn_if fired) v (close_state-size v ∙ g)
            λ _ u k. warn_if-size fired (tell_flat u).1 ∙ k

  after_fill-size :
      (ours : Bool) (ev : FillUpdate) (w : World E S)
      → size_after (after_fill ours ev w) ≡ w.router.size
  unfolding after_fill
  after_fill-size ours ev w = ground (
    arith,
    replace_stop-size (emit warn "late_fill" w).1,
    position_closed-size ours ev w,
    unexpected_fill-size w,
    entry_landed-size w,
  )

  -- A fill of this instrument, unless it is a late one of an order that was given up on, moves the size
  -- by its quantity, up for a buy and down for a sell, whatever state the router is in and also where
  -- the handler raises; a fill of another instrument moves nothing.
  pub on_fill-size :
      (ev : FillUpdate) (w : World E S)
      → (row_gave_up (get_order ev.client_order_id w.store)
          && not (is_pending_cid w.router.pending_cid ev.client_order_id))
        ≡ false
      → size_after (on_fill ev w) ≡ (
          if ev.instrument_id == w.router.instrument_id
          then w.router.size +ℤ fill_delta ev.side ev.quantity
          else w.router.size)
  unfolding on_fill
  on_fill-size ev w h =
      let row = get_order ev.client_order_id w.store in
      let new = w.router.size +ℤ fill_delta ev.side ev.quantity in
      let Moved : World E S → Type 0 = λ v. v.router.size ≡ new in
      let applied : size_after
            ((apply_fill ev >> (record_ours row ev >> after_fill (is_some row) ev)) w)
          ≡ new =
        >>=-keeps Moved (apply_fill ev) (λ _. record_ours row ev >> after_fill (is_some row) ev) w
          (apply_fill-size ev w)
          λ _ v g.
            >>=-keeps Moved (record_ours row ev) (λ _. after_fill (is_some row) ev) v
              (record_ours-size row ev v ∙ g) λ _ u k. after_fill-size (is_some row) ev u ∙ k in
      ground (arith, applied)
