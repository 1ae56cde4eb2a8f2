-- ===== src/Strategies/Built.antt =====
-- build_strategy and GRIDS of polyperps/strategies/__init__.py, and runs of a strategy that is built.
pub mod Sides
pub mod Holding
pub mod PointInTime
use perpbot.Base.{ℕ, Bool, Option, none, some, List, [], ◌∷◌, ◌++◌, pos}
use perpbot.Decimal.{Decimal, whole, hundredths}
use perpbot.Execution.Types.{Bar}
use perpbot.Execution.World.{Strategy}
use perpbot.Strategies.{Statistics}
use perpbot.Strategies.Faded.{Closes, funding_reversion, basis, funding_carry}
use perpbot.Strategies.Timed.{Held, at_rest, index_lag, lead_lag, overshoot}

-- A hypothesis with its parameters.
pub data Spec : Type 0 where
  h1 : (lookback : ℕ) → (entry_z exit_z : Decimal) → Spec
  h2 : (lookback : ℕ) → (entry_z : Decimal) → Spec
  h3 : (entry_bps : Decimal) → (hold_bars : ℕ) → Spec
  h4 : (gap_bps : Decimal) → (hold_bars : ℕ) → Spec
  h5 : (entry_z : Decimal) → (hold_bars : ℕ) → Spec
  h6 : (entry_bps_h : Decimal) → (smooth_hours : ℕ) → Spec

-- A strategy on one of the two kinds of state.
pub data Built : Type 0 where
  positioned : Strategy Decimal → Built
  holding : Strategy Held → Built

-- `build_strategy`; none is a raise, for h2 and h4 without the closes of the other venue
unfoldable pub build_strategy : Statistics → Spec → Option Closes → Option Built
build_strategy st (h1 lookback entry_z exit_z) proxy =
    some (positioned (funding_reversion st lookback entry_z exit_z))
build_strategy st (h2 lookback entry_z) none = none
build_strategy st (h2 lookback entry_z) (some proxy) =
    some (positioned (basis st lookback entry_z proxy))
build_strategy st (h3 entry_bps hold_bars) proxy = some (holding (index_lag entry_bps hold_bars))
build_strategy st (h4 gap_bps hold_bars) none = none
build_strategy st (h4 gap_bps hold_bars) (some proxy) =
    some (holding (lead_lag gap_bps hold_bars proxy))
build_strategy st (h5 entry_z hold_bars) proxy = some (holding (overshoot st entry_z hold_bars))
build_strategy st (h6 entry_bps_h smooth_hours) proxy =
    some (positioned (funding_carry entry_bps_h smooth_hours))

abbrev half : Decimal
half = hundredths 50

-- `GRIDS`
abbrev pub grids : List Spec
grids =
    h1 48 (hundredths 150) half
    ∷ h1 48 (whole 2) half
    ∷ h1 168 (hundredths 150) half
    ∷ h1 168 (whole 2) half
    ∷ h2 24 (whole 2)
    ∷ h2 24 (whole 3)
    ∷ h2 72 (whole 2)
    ∷ h2 72 (whole 3)
    ∷ h3 (whole 10) 1
    ∷ h3 (whole 10) 3
    ∷ h3 (whole 25) 1
    ∷ h3 (whole 25) 3
    ∷ h4 (whole 25) 1
    ∷ h4 (whole 25) 3
    ∷ h4 (whole 50) 1
    ∷ h4 (whole 50) 3
    ∷ h5 (hundredths 250) 3
    ∷ h5 (hundredths 250) 6
    ∷ h5 (hundredths 350) 3
    ∷ h5 (hundredths 350) 6
    ∷ h6 half 1
    ∷ h6 half 6
    ∷ h6 (whole 1) 1
    ∷ h6 (whole 1) 6
    ∷ []

-- What the router and the harness call.
pub data Op : Type 0 where
  decide : List Bar → Op
  flatten : Op
  recover : Bool → Op

module _ {S : Type 0} ⦃x : Strategy S⦄ where
  -- The state after a sequence of calls, and the targets that were asked for.
  unfoldable pub state_after : List Op → S → S
  state_after [] s = s
  state_after (decide history ∷ ops) s = state_after ops (x.target history s).1
  state_after (flatten ∷ ops) s = state_after ops (x.on_flatten s)
  state_after (recover long ∷ ops) s = state_after ops (x.on_recover long s)

  unfoldable pub targets : List Op → S → List Decimal
  targets [] s = []
  targets (decide history ∷ ops) s = let (t, s') = x.target history s in t ∷ targets ops s'
  targets (flatten ∷ ops) s = targets ops (x.on_flatten s)
  targets (recover long ∷ ops) s = targets ops (x.on_recover long s)

-- A run from a fresh strategy.
unfoldable pub run_built : Built → List Op → List Decimal
run_built (positioned x) ops = targets ⦃x = x⦄ ops (pos 0)
run_built (holding x) ops = targets ⦃x = x⦄ ops at_rest
