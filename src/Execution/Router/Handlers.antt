-- ===== src/Execution/Router/Handlers.antt =====
-- The calls that Portfolio makes on a router, as one type, and sequences of them. A call that raises
-- leaves what it has written; the next call goes on from there.
use perpbot.Base.{Option, List, [], ◌∷◌}
use perpbot.Decimal.{Decimal}
use perpbot.Execution.Types.{AccountSnapshot, Bar, FillUpdate, Intent, OrderUpdate, Time}
use perpbot.Execution.Router.Stops.{halt}
use perpbot.Execution.Router.Exits.{shutdown, check_pending}
use perpbot.Execution.Router.Bars.{on_bar, on_fast}
use perpbot.Execution.Router.Events.{on_update, on_fill}
use perpbot.Execution.World.{Executor, Strategy, World, Action}
use perpbot.Risk.KillSwitch

pub data Call : Type 0 where
  bar_closed : List Bar → AccountSnapshot → KillSwitch.Action → List Intent → Call
  tick : Decimal → AccountSnapshot → Call
  check : AccountSnapshot → Call
  order_update : OrderUpdate → Call
  filled : FillUpdate → Call
  kill : Decimal → Option Decimal → Call
  stop_trading : Call

module _ {E S : Type 0} ⦃x : Executor E⦄ ⦃y : Strategy S⦄ where
  unfoldable pub handle : Call → Action E S (Unit {0})
  handle (bar_closed history snap k pending) = on_bar history snap k pending
  handle (tick mark snap) = on_fast mark snap
  handle (check snap) = check_pending snap
  handle (order_update ev) = on_update ev
  handle (filled ev) = on_fill ev
  handle (kill mark held) = shutdown mark held
  handle stop_trading = halt

  -- Each call with the clock that it reads.
  unfoldable pub handle_all : List (Time × Call) → World E S → World E S
  handle_all [] w = w
  handle_all ((now, c) ∷ cs) w = handle_all cs (handle c (record w { now = now })).1
