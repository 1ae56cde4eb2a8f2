-- ===== src/Risk/KillSwitch/Laws.antt =====
-- How the two checks of the kill switch combine, and how the loss limit depends on equity.
use perpbot.Base.{◌⊎◌, ◌≤◌, ◌≡◌, arith, ◌≤ℤ◌, Option, some, -ℤ_parts}
use perpbot.Decimal.{Decimal, whole, ◌/ᴰ◌}
use perpbot.Decimal.Laws.{div_mono}
use perpbot.Risk.KillSwitch.{Mode, rank, KillThresholds, divergence_action, loss_limit, evaluate}

-- Either check alone can only make the verdict stricter, and the verdict is one of the two.
pub evaluate_strictest :
    (live_sharpe backtest_sharpe : Option Decimal) (mode : Mode)
    (equity start_equity : Option Decimal) (t : KillThresholds)
    → let v = evaluate live_sharpe backtest_sharpe mode equity start_equity t in
      (rank (divergence_action live_sharpe backtest_sharpe mode t) ≤ rank v)
      × (rank (loss_limit equity start_equity) ≤ rank v)
      × ((v ≡ divergence_action live_sharpe backtest_sharpe mode t)
          ⊎ (v ≡ loss_limit equity start_equity))
unfolding evaluate
evaluate_strictest live_sharpe backtest_sharpe mode equity start_equity t = ground arith

-- With less equity the loss limit is never milder.
pub loss_limit_mono :
    (equity less start_equity : Decimal)
    → less ≤ℤ equity
    → rank (loss_limit (some equity) (some start_equity))
      ≤ rank (loss_limit (some less) (some start_equity))
unfolding loss_limit
loss_limit_mono equity less start_equity h = ground (
  arith,
  div_mono less equity start_equity h,
  -ℤ_parts (less /ᴰ start_equity) (whole 1),
  -ℤ_parts (equity /ᴰ start_equity) (whole 1),
)
