-- ===== src/Execution/Router/Bars.antt =====
-- The bar cycle and the fast loop of the router: on_bar and on_fast.
use perpbot.Base.{
  Bool, false, not, ◌&&◌, ◌||◌, Option, none, some, String, List, [], ◌∷◌, if◌then◌else◌, ltb,
  min_ℤ, max_ℤ, neg_ℤ, length, last?,
}
use perpbot.Decimal.{Decimal, whole, ◌/ᴰ◌, quantize_down, q8}
use perpbot.Execution.Types.{liquidated, Intent, Bar, AccountSnapshot, PositionView, position}
use perpbot.Execution.Router.Rows.{is_frozen, is_pending, is_open, is_flat, is_zero, set_state}
use perpbot.Execution.Router.Send.{apply_guards, send}
use perpbot.Execution.Router.Exits.{
  entry_side, is_flip, is_pause, is_shutdown, same_level, level_of, skip_note, note, exit_now,
  shutdown,
}
use perpbot.Execution.World.{
  failed, ok, err, Executor, Strategy, Router, World, Action, assign, emit, write, ◌>>◌,
}
use perpbot.Monitor.{Alert, critical, margin_alert}
use perpbot.Risk.KillSwitch
use perpbot.Risk.LiquidationGuard.{
  vet_entry, check_open, hold, flatten, funding_exit_due, liq_distance,
}
use perpbot.Risk.PortfolioExposure.{vet_exposure}
use perpbot.Risk.Verdict.{Verdict}
use perpbot.Storage.{insert_alert}

-- `clamp_target` of polyperps/backtest/strategy.py
unfoldable pub clamp_target : Decimal → Decimal
clamp_target t = max_ℤ (neg_ℤ (whole 1)) (min_ℤ (whole 1) t)

-- The order that a target asks for, before the guards.
abbrev pub entry_intent : {S : Type 0} → Router S → Decimal → Decimal → Intent
entry_intent r mark target = record {
  instrument_id = r.instrument_id;
  side = entry_side target;
  quantity = quantize_down q8 (r.limits.notional_usd /ᴰ mark);
  notional = r.limits.notional_usd;
  reduce_only = false;
  reason = "strategy";
}

-- The verdicts of the two guards on it.
abbrev pub guard_verdicts :
    {S : Type 0}
    → Router S
    → Decimal
    → Intent
    → AccountSnapshot
    → List Intent
    → List (String × Verdict)
guard_verdicts r mark intent snap pending =
    ("vet_entry", vet_entry intent mark snap r.limits pending)
    ∷ (
      "vet_exposure",
      vet_exposure intent snap.positions snap.equity r.categories r.exposure pending,
    )
    ∷ []

module _ {E S : Type 0} ⦃x : Executor E⦄ where
  abbrev pub send_guarded :
      Option Intent → Option Decimal → List (String × Verdict) → Action E S (Unit {0})
  send_guarded none target verdicts w = note target verdicts "rejected" w
  send_guarded (some final) target verdicts w = send final target verdicts w

  -- The FLAT branch of `on_bar`.
  unfoldable pub enter :
      Decimal → Decimal → AccountSnapshot → KillSwitch.Action → List Intent → Action E S (Unit {0})
  enter mark target snap kill pending w =
      let r = w.router in
      let intent = entry_intent r mark target in
      let verdicts = guard_verdicts r mark intent snap pending in
      if is_zero target || is_pause kill
      then note (some target) [] (if is_pause kill then "kill:pause" else "flat:no_target") w
      else send_guarded (apply_guards intent verdicts) (some target) verdicts w

  -- The OPEN branch of `on_bar`.
  unfoldable pub manage : Decimal → Decimal → Action E S (Unit {0})
  manage mark target w =
      if is_zero target || is_flip w.router.size target
      then exit_now mark (if is_zero target then "strategy" else "flip") (some target) w
      else note (some target) [] "hold" w

module _ {E S : Type 0} ⦃x : Executor E⦄ ⦃y : Strategy S⦄ where
  -- From the strategy's target on.
  unfoldable pub decide :
      Decimal → List Bar → AccountSnapshot → KillSwitch.Action → List Intent → Action E S (Unit {0})
  decide mark history snap kill pending w =
      let (t, s) = y.target history w.router.strategy in
      let w' : World E S = record w { router = record (w.router) { strategy = s } } in
      if is_flat w.router.state
      then enter mark (clamp_target t) snap kill pending w'
      else manage mark (clamp_target t) w'

  abbrev pub at_mark :
      Option Decimal
      → Bool
      → List Bar
      → AccountSnapshot
      → KillSwitch.Action
      → List Intent
      → Action E S (Unit {0})
  at_mark none complete history snap kill pending w = note none [] "skip:no_close" w
  at_mark (some mark) complete history snap kill pending w =
      if is_shutdown kill
      then shutdown mark none w
      else if not complete
      then (if is_open w.router.state
          then exit_now mark "data_gap" none w
          else note none [] "skip:data_gap" w)
      else if ltb (length history) y.warmup
      then note none [] "skip:warmup" w
      else decide mark history snap kill pending w

  abbrev pub at_bar :
      Option Bar
      → List Bar
      → AccountSnapshot
      → KillSwitch.Action
      → List Intent
      → Action E S (Unit {0})
  at_bar none history snap kill pending w = (err failed, w)
  at_bar (some bar) history snap kill pending w =
      at_mark bar.close bar.complete history snap kill pending w

  -- `on_bar`; an empty history, which Portfolio never passes, raises.
  unfoldable pub on_bar :
      List Bar → AccountSnapshot → KillSwitch.Action → List Intent → Action E S (Unit {0})
  on_bar history snap kill pending w =
      let st = w.router.state in
      if is_frozen st || is_pending st
      then note none [] (skip_note st) w
      else at_bar (last? history) history snap kill pending w

module _ {E S : Type 0} ⦃x : Executor E⦄ where
  abbrev pub emit_if : Bool → Option Alert → Action E S (Unit {0})
  emit_if b none w = (ok tt, w)
  emit_if b (some a) w = if b then write (insert_alert a) w else (ok tt, w)

  -- The margin alert, on a change of level only.
  abbrev pub watch_margin : Option Decimal → Decimal → Action E S (Unit {0})
  watch_margin none mark w = (ok tt, w)
  watch_margin (some liq) mark w =
      let a = margin_alert (liq_distance liq mark) w.router.instrument_id in
      (do
        emit_if (not (same_level (level_of a) w.router.last_margin_level)) a
        assign (λ r. record r { last_margin_level = level_of a }))
        w

  abbrev pub protect : PositionView → Decimal → Action E S (Unit {0})
  protect p mark w = elim (check_open p mark w.router.limits) [
    | flatten ↦ exit_now mark "liq_distance" none w
    | hold ↦
        if funding_exit_due p w.router.limits
        then exit_now mark "funding_cost" none w
        else (ok tt, w)
  ]

  abbrev pub fast_position : Option PositionView → Decimal → Action E S (Unit {0})
  fast_position none mark w = (ok tt, w)
  fast_position (some p) mark w = (do watch_margin p.liquidation_price mark; protect p mark) w

  -- `on_fast`
  unfoldable pub on_fast : Decimal → AccountSnapshot → Action E S (Unit {0})
  on_fast mark snap w =
      let r = w.router in
      if not (is_open r.state)
      then (ok tt, w)
      else if snap.in_liquidation && not (is_zero r.size)
      then (do emit critical "liquidation"; set_state liquidated) w
      else fast_position (position snap r.instrument_id) mark w
