-- ===== src/Risk/KillSwitch.antt =====
-- polyperps/risk/kill_switch.py. The divergence of the live from the backtest Sharpe ratio is a
-- float computation: `divergence` takes the two ratios as decimals.
pub mod Laws
use perpbot.Base.{
  ℕ, Bool, true, false, Option, none, some, if◌then◌else◌, leb_ℤ, eqb_ℤ, abs_ℤ, pos, ◌-ℤ◌, leb,
}
use perpbot.Decimal.{Decimal, whole, ◌/ᴰ◌}
use perpbot.Monitor.{pnl_warn, pnl_critical}

pub data Mode : Type 0 where
  paper live : Mode

pub data Action : Type 0 where
  run pause shutdown : Action

-- `_RANK`
abbrev pub rank : Action → ℕ
rank run = 0
rank pause = 1
rank shutdown = 2

pub record KillThresholds : Type 0 where
  pub pause_at : Option Decimal
  pub shutdown_at : Option Decimal

unfoldable pub divergence : Option Decimal → Option Decimal → Option Decimal
divergence (some l) (some b) = if eqb_ℤ b (pos 0) then none else some (abs_ℤ (l -ℤ b) /ᴰ abs_ℤ b)
divergence none _ = none
divergence (some _) none = none

abbrev pub mode_default : Mode → Action
mode_default live = pause
mode_default paper = run

abbrev pub by_divergence : Option Decimal → Mode → Decimal → Decimal → Action
by_divergence none mode pause_at shutdown_at = mode_default mode
by_divergence (some d) mode pause_at shutdown_at =
    if leb_ℤ shutdown_at d then shutdown else if leb_ℤ pause_at d then pause else run

-- `_divergence_action`, with the thresholds' two fields
abbrev pub by_thresholds : Option Decimal → Mode → Option Decimal → Option Decimal → Action
by_thresholds d mode (some p) (some s) = by_divergence d mode p s
by_thresholds d mode none _ = mode_default mode
by_thresholds d mode (some _) none = mode_default mode

unfoldable pub divergence_action : Option Decimal → Option Decimal → Mode → KillThresholds → Action
divergence_action live_sharpe backtest_sharpe mode t =
    by_thresholds (divergence live_sharpe backtest_sharpe) mode t.pause_at t.shutdown_at

unfoldable pub loss_limit : Option Decimal → Option Decimal → Action
loss_limit (some equity) (some start_equity) =
    if leb_ℤ start_equity (pos 0)
    then run
    else let drawdown = equity /ᴰ start_equity -ℤ whole 1 in
      if leb_ℤ drawdown pnl_critical
      then shutdown
      else if leb_ℤ drawdown pnl_warn
      then pause
      else run
loss_limit none _ = run
loss_limit (some _) none = run

-- `max(a, b, key=_RANK.__getitem__)` keeps the first of two of one rank
abbrev pub stricter : Action → Action → Action
stricter a b = if leb (rank b) (rank a) then a else b

unfoldable pub evaluate :
    Option Decimal
    → Option Decimal
    → Mode
    → Option Decimal
    → Option Decimal
    → KillThresholds
    → Action
evaluate live_sharpe backtest_sharpe mode equity start_equity t =
    stricter (divergence_action live_sharpe backtest_sharpe mode t) (loss_limit equity start_equity)
