-- ===== src/Tests/Accounts.antt =====
-- Runs of the paper account and of the bar builder.
use perpbot.Base.{◌+◌, ◌*◌, true, some, [], ◌∷◌, ◌≡◌, refl, arith, pos}
use perpbot.Base.Dict.{nat_key}
use perpbot.Decimal.{whole}
use perpbot.Execution.SimExecutor.{Account, timeout}
use perpbot.Execution.SimExecutor.Orders.{submit}
use perpbot.Execution.SimExecutor.Positions.{IsReduced, size_at, submit_reduces}
use perpbot.Execution.SimExecutor.Stops.{check_triggers_closes}
use perpbot.Execution.SimExecutor.Venue.{check_triggers}
use perpbot.Execution.Types.{OrderRequest, sell}
use perpbot.Execution.LiveBars.{feed_all, empty_builder, hour}
use perpbot.Execution.LiveBars.Chained.{IsBuilt, feed_all-IsBuilt}
use perpbot.Tests.{sample_request, sample_tick}

-- Two units long at 50, the mark at 40 under a stop at 42.
abbrev sample_account : Account
sample_account = record {
  cash = whole 1000;
  fee = pos 0;
  spread = pos 0;
  impact = pos 0;
  notional = whole 100;
  marks = (7, whole 40) ∷ [];
  positions = (7, record { size = whole 2; entry = whole 50; funding = pos 0 }) ∷ [];
  stops = (3, whole 9) ∷ (7, whole 42) ∷ [];
  queue = [];
  n = 0;
  fail_next = some timeout;
  fail_queue = [];
  clock = 5;
}

abbrev closing_request : OrderRequest
closing_request = record sample_request { side = sell; quantity = whole 5; reduce_only = true }

submit_reduces_example :
    IsReduced (size_at 7 (submit closing_request sample_account).1) (size_at 7 sample_account)
submit_reduces_example = submit_reduces closing_request sample_account refl (omega arith)

check_triggers_closes_example : size_at 7 (check_triggers sample_account).1 ≡ pos 0
check_triggers_closes_example =
    check_triggers_closes 7 (whole 42) (whole 40) sample_account refl refl refl

feed_all-IsBuilt_example : IsBuilt (
    feed_all
      (sample_tick 5 ∷ sample_tick (hour + 5) ∷ sample_tick (4 * hour) ∷ [])
      (empty_builder (pos 0) 500))
feed_all-IsBuilt_example =
    feed_all-IsBuilt (pos 0) 500
      (sample_tick 5 ∷ sample_tick (hour + 5) ∷ sample_tick (4 * hour) ∷ [])
