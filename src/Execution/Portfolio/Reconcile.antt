-- ===== src/Execution/Portfolio/Reconcile.antt =====
-- _reconcile of Portfolio: the diff of the stored rows and the exchange, and what is done about each
-- mismatch. A refusal of the shadow executor is caught and reported once; any other raise ends the loop.
pub mod Freezes
pub mod Steps
use perpbot.Base.{
  ℕ, Bool, true, false, not, ◌&&◌, Option, none, some, List, [], ◌∷◌, if◌then◌else◌, ◌==◌, leb_ℤ,
  eqb_ℤ, eqb_text, pos,
}
use perpbot.Base.Dict.{Dict, lookup, nat_key}
use perpbot.Decimal.{Decimal}
use perpbot.Execution.Portfolio.{
  Book, Shared, Call, has_router, one_router, on_exec, emit, skip, ◌>>=◌, ◌>>◌,
}
use perpbot.Execution.Reconciliation.{
  Mismatch, size, missing_stop, stop_drift, stop_without_position, unknown_order, drift_tolerance,
  diff,
}
use perpbot.Execution.Router.Rows.{is_long, is_terminal, persist}
use perpbot.Execution.Router.Stops.{place_exchange_stop, halt}
use perpbot.Execution.Portfolio.{skip}
use perpbot.Execution.Portfolio.Drive.{dispatch_fill, dispatch_update}
use perpbot.Execution.Types.{
  FillUpdate, OrderUpdate, OrderRow, Text, PositionView, AccountSnapshot, position,
}
use perpbot.Execution.World
use perpbot.Execution.World.{
  Strategy, Error, refused, failed, Result, ok, err, Executor, Router, World, Action, assign,
}
use perpbot.Monitor.{Level, info, warn, critical, alert}
use perpbot.Risk.LiquidationGuard.{default_limits, stop_price}
use perpbot.Storage.{get_positions_local, Store, order_rows}

-- `{o.client_order_id for o in ... if o.status not in _TERMINAL_ORDER_STATUSES}`
abbrev pub known_orders : List OrderRow → List Text
known_orders [] = []
known_orders (o ∷ os) =
    let rest = known_orders os in if is_terminal o.status then rest else o.client_order_id ∷ rest

abbrev same_option : Option Decimal → Option Decimal → Bool
same_option none none = true
same_option (some a) (some b) = eqb_ℤ a b
same_option _ _ = false

-- Equality of the keys (kind, instrument_id, local, remote)
abbrev pub same_mismatch : Mismatch → Mismatch → Bool
same_mismatch (size i a b) (size j c d) = i == j && eqb_ℤ a c && eqb_ℤ b d
same_mismatch (missing_stop i a) (missing_stop j b) = i == j && same_option a b
same_mismatch (stop_drift i a b) (stop_drift j c d) = i == j && eqb_ℤ a c && eqb_ℤ b d
same_mismatch (stop_without_position i a) (stop_without_position j b) = i == j && eqb_ℤ a b
same_mismatch (unknown_order a) (unknown_order b) = eqb_text a b
same_mismatch _ _ = false

abbrev pub mem_mismatch : Mismatch → List Mismatch → Bool
mem_mismatch m [] = false
mem_mismatch m (n ∷ ns) = if same_mismatch n m then true else mem_mismatch m ns

-- `reported & mismatches`
abbrev pub still_there : List Mismatch → List Mismatch → List Mismatch
still_there [] ms = []
still_there (r ∷ rs) ms = if mem_mismatch r ms then r ∷ still_there rs ms else still_there rs ms

abbrev pub mismatch_id : Mismatch → Option ℕ
mismatch_id (size i _ _) = some i
mismatch_id (missing_stop i _) = some i
mismatch_id (stop_drift i _ _) = some i
mismatch_id (stop_without_position i _) = some i
mismatch_id (unknown_order _) = none

module _ {E S : Type 0} where
  -- `except ShadowRefused`: reported once for a mismatch that persists.
  unfoldable pub report_refused : Mismatch → Call E S (Unit {0})
  report_refused m b =
      if mem_mismatch m b.refused_reported
      then (ok tt, b)
      else emit (alert warn "shadow_refused" (mismatch_id m))
          (record b { refused_reported = m ∷ b.refused_reported })

  abbrev pub catch_refused : Mismatch → Result (Unit {0}) × Book E S → Result (Unit {0}) × Book E S
  catch_refused m (ok a, b) = (ok a, b)
  catch_refused m (err refused, b) = report_refused m b
  catch_refused m (err failed, b) = (err failed, b)

module _ {E S : Type 0} ⦃x : Executor E⦄ where
  -- The stop of a position that the router `r` has: on the exchange, in the field and in the row.
  unfoldable pub guard_position : PositionView → Action E S (Unit {0})
  unfolding persist place_exchange_stop
  guard_position p w =
      World.◌>>=◌ (place_exchange_stop p w.router.limits)
        (λ trigger. World.◌>>◌ (assign (λ r. record r { stop_trigger = some trigger })) persist) w

  -- The same without a router, under the default limits.
  abbrev pub guard_unrouted : PositionView → Call E S (Unit {0})
  guard_unrouted p b =
      if leb_ℤ p.entry_price (pos 0)
      then (err failed, b)
      else on_exec
          (x.place_stop p.instrument_id (stop_price (is_long p.size) p.entry_price default_limits))
          b

  abbrev pub guard_missing : ℕ → Option PositionView → Call E S (Unit {0})
  guard_missing i none b = (err failed, b)
  guard_missing i (some p) b =
      if has_router i b.routers then one_router i (λ _. guard_position p) b else guard_unrouted p b

  -- The body of the `try`.
  unfoldable pub respond : AccountSnapshot → Mismatch → Call E S (Unit {0})
  respond snap (size i _ _) b =
      if has_router i b.routers
      then one_router i (λ _. halt) b
      else emit (alert critical "unknown_position" (some i)) b
  respond snap (unknown_order id) b =
      (on_exec (x.cancel_order id) >> emit (alert warn "unknown_order" none)) b
  respond snap (missing_stop i _) b =
      (guard_missing i (position snap i)
          >> (emit (alert warn "stop_missing" (some i))
              >> emit (alert info "stop_placed" (some i))))
        b
  respond snap (stop_without_position i _) b =
      if x.is_shadow
      then (err refused, b)
      else (on_exec (x.cancel_stop i) >> emit (alert info "stop_orphan_cancelled" (some i))) b
  respond snap (stop_drift i _ _) b = emit (alert warn "stop_drift" (some i)) b

  unfoldable pub respond_all : AccountSnapshot → List Mismatch → Call E S (Unit {0})
  respond_all snap [] b = (ok tt, b)
  respond_all snap (m ∷ ms) b = ((λ c. catch_refused m (respond snap m c)) >> respond_all snap ms) b

  abbrev pub forget_resolved : List Mismatch → Book E S → Book E S
  forget_resolved ms b = record b { refused_reported = still_there b.refused_reported ms }

  abbrev pub mismatches_of : AccountSnapshot → Book E S → List Mismatch
  mismatches_of snap b =
      let s = b.shared.store in
      diff (get_positions_local s) snap b.run_id (known_orders (order_rows s.orders))
        drift_tolerance

  abbrev pub handle_mismatches : AccountSnapshot → List Mismatch → Call E S (List Mismatch)
  handle_mismatches snap ms b =
      let (r, c) = respond_all snap ms b in
      elim r [ ok _ ↦ (ok ms, forget_resolved ms c) | err e ↦ (err e, c) ]

  -- `_reconcile`
  unfoldable pub reconcile : Call E S (List Mismatch)
  reconcile b = (on_exec x.snapshot >>= λ snap c. handle_mismatches snap (mismatches_of snap c) c) b

-- The events that the executor yields.
pub data Event : Type 0 where
  filled : FillUpdate → Event
  updated : OrderUpdate → Event
  reconcile_now : Event

module _ {E S : Type 0} ⦃x : Executor E⦄ ⦃y : Strategy S⦄ where
  -- `_dispatch`
  unfoldable pub dispatch : Event → Call E S (Unit {0})
  dispatch (filled ev) b = dispatch_fill ev b
  dispatch (updated ev) b = dispatch_update ev b
  dispatch reconcile_now b = (reconcile >> skip) b
