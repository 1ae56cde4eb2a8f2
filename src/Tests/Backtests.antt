-- ===== src/Tests/Backtests.antt =====
-- Runs of the backtest.
use perpbot.Base.{some, true, false, [], ◌∷◌, ◌≡◌, refl, pos, arith}
use perpbot.Base.Dict.{nat_key}
use perpbot.Backtest.Harness.{Settings}
use perpbot.Backtest.Harness.Accounts.{IsAccounted, run_backtest-IsAccounted}
use perpbot.Backtest.Harness.Unseen.{SameDeeds, run_backtest-SameDeeds}
use perpbot.Backtest.Harness.Gaps.{run_backtest_flat}
use perpbot.Backtest.Harness.Turns.{run_backtest}
use perpbot.Decimal.{whole, hundredths}
use perpbot.Execution.Types.{Bar}
use perpbot.Tests.{sample_bar, constant_target}

abbrev settings : Settings
settings = record {
  minute_closes = (3_600_000_000, whole 51) ∷ [];
  taker_fee_rate = hundredths 1;
  latency = 2_000_000;
  impact_bps = whole 5;
  notional = whole 100;
  use_last_trade = true;
  max_age = 3_600_000_000;
}

abbrev next_bar : Bar
next_bar = record sample_bar { open_ts = 3_600_000_000 }

abbrev broken_bar : Bar
broken_bar = record sample_bar { open_ts = 7_200_000_000; complete = false }

abbrev after_bar : Bar
after_bar = record sample_bar { open_ts = 10_800_000_000 }

-- The strategy wants to be long: it buys at the close of the minute after the first bar.
run_backtest-IsAccounted_example :
    IsAccounted
      (run_backtest settings 0 (sample_bar ∷ next_bar ∷ broken_bar ∷ after_bar ∷ []) (whole 1))
run_backtest-IsAccounted_example =
    run_backtest-IsAccounted settings 0 (sample_bar ∷ next_bar ∷ broken_bar ∷ after_bar ∷ [])
      (whole 1)

-- The next bar, but it falls to half.
abbrev fallen_bar : Bar
fallen_bar = record next_bar { low = some (whole 20); close = some (whole 25) }

run_backtest-SameDeeds_example :
    SameDeeds
      (run_backtest settings 0 (sample_bar ∷ next_bar ∷ []) (whole 1))
      (run_backtest settings 0 (sample_bar ∷ fallen_bar ∷ []) (whole 1))
run_backtest-SameDeeds_example =
    run_backtest-SameDeeds settings 0 [] sample_bar next_bar fallen_bar (whole 1)
      (record { same_time = refl; same_open = refl; both_close = refl })

run_backtest_flat_example :
    (run_backtest settings 0
      (sample_bar ∷ next_bar ∷ broken_bar ∷ after_bar ∷ [])
      (whole 1)).book.position
    ≡ pos 0
run_backtest_flat_example =
    run_backtest_flat settings 0 (sample_bar ∷ next_bar ∷ []) broken_bar after_bar (whole 1)
      (omega arith) refl
