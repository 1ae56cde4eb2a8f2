-- ===== src/Execution/Router/Stops.antt =====
-- The router's stops, halting, and taking over the exchange's view of the position.
use perpbot.Base.{Option, none, some, if◌then◌else◌, leb_ℤ, pos}
use perpbot.Base.Dict.{lookup, nat_key}
use perpbot.Decimal.{Decimal}
use perpbot.Execution.Types.{
  State, flat, open_position, halted, PositionView, AccountSnapshot, position,
}
use perpbot.Execution.Router.Rows.{is_frozen, is_long, is_zero, persist, set_state}
use perpbot.Execution.World.{
  refused, failed, Result, ok, err, Executor, Strategy, Action, pure, raise, on_exec, assign, emit,
  ◌>>=◌, ◌>>◌,
}
use perpbot.Monitor.{info, warn, critical}
use perpbot.Risk.LiquidationGuard.{RiskLimits, stop_price}

-- `except ShadowRefused`: any other exception goes on.
abbrev pub on_refused : {E S A : Type 0} → Action E S A → Action E S A → Action E S A
on_refused handler m w =
    let (r, w') = m w in
    elim r [
      | ok a ↦ (ok a, w')
      | err e ↦ elim e [ refused ↦ handler w' | failed ↦ (err failed, w') ]
    ]

-- `State.OPEN if self.size != 0 else State.FLAT`
abbrev pub settled_state : Decimal → State
settled_state size = if is_zero size then flat else open_position

module _ {E S : Type 0} ⦃x : Executor E⦄ where
  -- `place_exchange_stop`: a stop at the router's distance from the exchange's entry price
  unfoldable pub place_exchange_stop : PositionView → RiskLimits → Action E S Decimal
  place_exchange_stop p limits =
      if leb_ℤ p.entry_price (pos 0)
      then raise failed
      else (let trigger = stop_price (is_long p.size) p.entry_price limits in
          do on_exec (x.place_stop p.instrument_id trigger); pure trigger)

  abbrev pub stop_refused : Action E S (Unit {0})
  stop_refused = do
    assign (λ r. record r { stop_trigger = none })
    persist
    emit warn "shadow_refused"

  abbrev pub stop_placed : Decimal → Action E S (Unit {0})
  stop_placed trigger = do
    assign (λ r. record r { stop_trigger = some trigger })
    persist
    emit info "stop_placed"

  abbrev pub placed_or_refused : Result (Unit {0}) → Decimal → Action E S (Unit {0})
  placed_or_refused (ok _) trigger = stop_placed trigger
  placed_or_refused (err refused) trigger = stop_refused
  placed_or_refused (err failed) trigger = raise failed

  abbrev pub stop_for : Option Decimal → Decimal → Action E S (Unit {0})
  stop_for none size w = (ok tt, w)
  stop_for (some entry) size w =
      let r = w.router in
      let trigger = stop_price (is_long size) entry r.limits in
      let (a, e) = x.place_stop r.instrument_id trigger w.exec in
      placed_or_refused a trigger (record w { exec = e })

  unfoldable pub replace_stop : Action E S (Unit {0})
  unfolding persist
  replace_stop w =
      let r = w.router in if is_zero r.size then (ok tt, w) else stop_for r.entry r.size w

  unfoldable pub halt : Action E S (Unit {0})
  unfolding set_state
  halt w =
      if is_frozen w.router.state
      then (ok tt, w)
      else (do
        emit critical "halted"
        assign (λ r. record r { pending_cid = none })
        set_state halted)
          w

  -- What `_adopt` does about the stop of the position `p` that it took over.
  abbrev pub adopt_stop : Option Decimal → PositionView → Action E S (Unit {0})
  adopt_stop (some trigger) p w = assign (λ r. record r { stop_trigger = some trigger }) w
  adopt_stop none p w =
      on_refused (do assign (λ r. record r { stop_trigger = none }); emit warn "shadow_refused")
        (do
          trigger ← place_exchange_stop p w.router.limits
          assign (λ r. record r { stop_trigger = some trigger }))
        w

  abbrev pub forget_position : Action E S (Unit {0})
  forget_position = assign (λ r. record r {
    size = pos 0;
    entry = none;
    stop_trigger = none;
    cumulative_funding = pos 0;
  })

  abbrev pub take_position : Option PositionView → AccountSnapshot → Action E S (Unit {0})
  take_position none snap w = forget_position w
  take_position (some p) snap w =
      if is_zero p.size
      then forget_position w
      else (do
        assign (λ r. record r {
          size = p.size;
          entry = some p.entry_price;
          cumulative_funding = p.cumulative_funding;
        })
        adopt_stop (lookup w.router.instrument_id snap.stops) p)
          w

  -- `_adopt`
  unfoldable pub adopt : AccountSnapshot → Action E S (Unit {0})
  unfolding persist place_exchange_stop
  adopt snap w =
      (do
        assign (λ r. record r { pending_cid = none; pending_since = none })
        take_position (position snap w.router.instrument_id) snap
        persist)
        w

module _ {E S : Type 0} ⦃x : Executor E⦄ ⦃y : Strategy S⦄ where
  abbrev pub tell_flat : Action E S (Unit {0})
  tell_flat = assign (λ r. record r { strategy = y.on_flatten r.strategy })

  -- Leaves a frozen state alone.
  abbrev pub settle_state : Action E S (Unit {0})
  settle_state w =
      if is_frozen w.router.state then (ok tt, w) else set_state (settled_state w.router.size) w

  abbrev pub tell_strategy : Action E S (Unit {0})
  tell_strategy w =
      if is_zero w.router.size
      then (do on_exec (x.cancel_stop w.router.instrument_id); tell_flat) w
      else assign (λ r. record r { strategy = y.on_recover (is_long r.size) r.strategy }) w

  -- `_adopt_and_settle`
  unfoldable pub adopt_and_settle : AccountSnapshot → Action E S (Unit {0})
  unfolding set_state
  adopt_and_settle snap = do adopt snap; settle_state; tell_strategy
