-- ===== src/Execution/Portfolio/Drive.antt =====
-- The bar cycle, the fast loop and the shutdown of Portfolio: on_bar, _check_funding, _shutdown, on_fast
-- and dispatch.
use perpbot.Base.{
  ℕ, Bool, false, not, ◌&&◌, ◌||◌, Option, none, some, or_else, List, [], ◌∷◌, if◌then◌else◌, ◌==◌,
  last?, pos, neg_ℤ, abs_ℤ, ◌-ℤ◌,
}
use perpbot.Base.Dict.{Dict, lookup, insert, erase, nat_key}
use perpbot.Decimal.{Decimal, ◌/ᴰ◌}
use perpbot.Execution.Portfolio.{
  Book, Call, all_routers, one_router, on_exec, emit, alerted_if, ◌>>=◌, ◌>>◌,
}
use perpbot.Execution.Router.Bars.{on_bar, on_fast}
use perpbot.Execution.Router.Events.{on_update, on_fill}
use perpbot.Execution.Router.Exits.{shutdown, check_pending, is_shutdown, level_of, same_level}
use perpbot.Execution.Router.Rows.{is_entry_pending, is_frozen, is_zero, is_long}
use perpbot.Execution.Router.Send.{size_of}
use perpbot.Execution.Types.{
  AccountSnapshot, Bar, Intent, OrderUpdate, FillUpdate, PositionView, position,
}
use perpbot.Execution.World.{ok, Executor, Strategy, Router, Action}
use perpbot.Monitor.{Alert, alert, critical, pnl_alert, funding_drift_alert}
use perpbot.Risk.KillSwitch
use perpbot.Risk.KillSwitch.{loss_limit}

abbrev pub Histories : Type 0
Histories = Dict ℕ (List Bar)

-- The entries in flight of the other routers.
abbrev pub in_flight : {S : Type 0} → ℕ → List (Router S) → List Intent
in_flight i [] = []
in_flight i (r ∷ rs) =
    let rest = in_flight i rs in
    if not (r.instrument_id == i) && is_entry_pending r.state
    then (elim r.pending_intent [ none ↦ rest | some p ↦ p ∷ rest ])
    else rest

-- `1 if pos.size > 0 else -1` times a rate
abbrev pub signed_rate : Decimal → Decimal → Decimal
signed_rate size rate = if is_long size then rate else neg_ℤ rate

abbrev pub funding_alert : ℕ → Option Decimal → PositionView → Decimal → Option Alert
funding_alert i none p rate = none
funding_alert i (some before) p rate =
    if is_zero p.notional
    then none
    else funding_drift_alert ((before -ℤ p.cumulative_funding) /ᴰ p.notional)
        (signed_rate p.size rate) i

abbrev pub rate_of : Option Bar → Option Decimal
rate_of none = none
rate_of (some bar) = bar.funding_rate

abbrev pub any_unfrozen : {S : Type 0} → List (Router S) → Bool
any_unfrozen [] = false
any_unfrozen (r ∷ rs) = not (is_frozen r.state) || any_unfrozen rs

abbrev pub shutdown_cause : Option Decimal → Decimal → Alert
shutdown_cause start_equity equity =
    alert critical
      (if is_shutdown (loss_limit (some equity) start_equity) then "loss_limit" else "divergence")
      none

-- The price that a router is flattened at.
abbrev pub close_of : Option Bar → Option Decimal
close_of none = none
close_of (some bar) = bar.close

abbrev pub mark_of : Option Decimal → Option PositionView → Option Decimal → Decimal
mark_of (some close) p entry = close
mark_of none none entry = or_else entry (pos 0)
mark_of none (some p) entry =
    if is_zero p.size then or_else entry (pos 0) else p.notional /ᴰ abs_ℤ p.size

abbrev pub history_of : Option (List Bar) → Option Bar
history_of none = none
history_of (some h) = last? h

module _ {E S : Type 0} where
  abbrev pub forget_funding : ℕ → Book E S → Book E S
  forget_funding i b = record b { funding_seen = erase i b.funding_seen }

  abbrev pub see_funding : ℕ → PositionView → Decimal → Book E S → Book E S
  see_funding i p rate b =
      let a = funding_alert i (lookup i b.funding_seen) p rate in
      record b {
        funding_seen = insert i p.cumulative_funding b.funding_seen;
        shared = alerted_if a b.shared;
      }

  abbrev pub check_funding_one : ℕ → Option PositionView → Option Decimal → Book E S → Book E S
  check_funding_one i (some p) (some rate) b =
      if is_zero p.size then forget_funding i b else see_funding i p rate b
  check_funding_one i none _ b = forget_funding i b
  check_funding_one i (some p) none b = forget_funding i b

  -- `_check_funding`
  unfoldable pub check_funding : Histories → AccountSnapshot → Book E S → Book E S
  check_funding [] snap b = b
  check_funding ((i, history) ∷ hs) snap b =
      check_funding hs snap (check_funding_one i (position snap i) (rate_of (last? history)) b)

module _ {E S : Type 0} ⦃x : Executor E⦄ where
  abbrev pub shutdown_router : Histories → AccountSnapshot → Router S → Action E S (Unit {0})
  shutdown_router histories snap r =
      let bar = history_of (lookup r.instrument_id histories) in
      let p = position snap r.instrument_id in
      shutdown (mark_of (close_of bar) p r.entry) (some (size_of p))

  -- `_shutdown`
  unfoldable pub shutdown_all : AccountSnapshot → Histories → Call E S (Unit {0})
  shutdown_all snap histories b =
      let b' : Book E S =
        if any_unfrozen b.routers
        then (emit (shutdown_cause b.start_equity snap.equity) b).1
        else b in
      all_routers (shutdown_router histories snap) b'

module _ {E S : Type 0} ⦃x : Executor E⦄ ⦃y : Strategy S⦄ where
  -- The loop of `on_bar`: a history with no bar is passed over.
  unfoldable pub bar_loop : Histories → AccountSnapshot → KillSwitch.Action → Call E S (Unit {0})
  bar_loop [] snap kill b = (ok tt, b)
  bar_loop ((i, []) ∷ hs) snap kill b = bar_loop hs snap kill b
  bar_loop ((i, bar ∷ bars) ∷ hs) snap kill b =
      (one_router i (λ r. on_bar (bar ∷ bars) snap kill (in_flight i b.routers))
          >> bar_loop hs snap kill)
        b

  -- `Portfolio.on_bar`
  unfoldable pub book_on_bar : Histories → KillSwitch.Action → Call E S (Unit {0})
  book_on_bar histories kill = on_exec x.snapshot >>= λ snap b.
      if is_shutdown kill
      then shutdown_all snap histories b
      else bar_loop histories snap kill (check_funding histories snap b)

  unfoldable pub fast_loop : Dict ℕ Decimal → AccountSnapshot → Call E S (Unit {0})
  fast_loop [] snap b = (ok tt, b)
  fast_loop ((i, mark) ∷ ms) snap b = (one_router i (λ r. on_fast mark snap) >> fast_loop ms snap) b

  -- The drawdown alert, on a change of level only.
  abbrev pub watch_pnl : Option Decimal → Decimal → Book E S → Book E S
  watch_pnl none equity b = b
  watch_pnl (some start) equity b =
      let a = pnl_alert equity start in
      record b {
        shared =
            if same_level (level_of a) b.last_pnl_level then b.shared else alerted_if a b.shared;
        last_pnl_level = level_of a;
      }

  -- `Portfolio.on_fast`
  unfoldable pub book_on_fast : Dict ℕ Decimal → Call E S AccountSnapshot
  book_on_fast marks = on_exec x.snapshot >>= λ snap.
      all_routers (λ r. check_pending snap)
      >> (fast_loop marks snap >> λ b. (ok snap, watch_pnl b.start_equity snap.equity b))

  -- `_dispatch`, for a fill and for an order update
  unfoldable pub dispatch_fill : FillUpdate → Call E S (Unit {0})
  dispatch_fill ev = one_router ev.instrument_id (λ r. on_fill ev)

  unfoldable pub dispatch_update : OrderUpdate → Call E S (Unit {0})
  dispatch_update ev = all_routers (λ r. on_update ev)
