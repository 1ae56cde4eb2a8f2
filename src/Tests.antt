-- ===== src/Tests.antt =====
-- Concrete values for the runs of the submodules: a scripted executor, a strategy that keeps one target, and a
-- router with its store.
pub mod Routers
pub mod Accounts
pub mod Guards
pub mod Venues
pub mod Clients
pub mod Approvals
pub mod Backtests
pub mod Signals
pub mod Markets
pub mod Traders
use perpbot.Base.{
  ℕ, ◌*◌, ◌<◌, Bool, true, false, Option, none, some, String, List, [], ◌∷◌, ◌≡◌, ◌≢◌, refl, ◌↔◌,
  ◌⊎◌, inl, inr, arith, if◌then◌else◌, ℤ, pos, negsuc, ◌<ℤ◌, eqb_text,
}
use perpbot.Base.Dict.{Dict, nat_key, text_key}
use perpbot.Decimal.{Decimal, whole, hundredths, cents, ◌/ᴰ◌, round_half_even}
use perpbot.Exchange.{Tick, polymarket_ws}
use perpbot.Execution.Types.{
  State, flat, entry_pending, open_position, halted, buy, sell, Text, Intent, OrderRequest,
  OrderAck, AckStatus, PositionView, AccountSnapshot, FillUpdate, PositionLocalRow, Bar,
}
use perpbot.Execution.World.{
  ok, err, failed, Submitted, acked, timed_out, raised, Executor, Strategy, Router, World,
}
use perpbot.Risk.LiquidationGuard.{default_limits}
use perpbot.Risk.PortfolioExposure.{Cluster, crypto, default_exposure}
use perpbot.Risk.Verdict.{Verdict, allow, resize}
use perpbot.Storage.{Store}

abbrev pub empty_snapshot : AccountSnapshot
empty_snapshot = record {
  equity = whole 1000;
  positions = [];
  open_orders = [];
  stops = [];
  in_liquidation = false;
  ts = 0;
}

-- What `submit` answers next; a script that has ended raises.
abbrev pub answer : List Submitted → Submitted × List Submitted
answer [] = (raised failed, [])
answer (s ∷ script) = (s, script)

instance abbrev pub scripted : Executor (List Submitted)
scripted = record {
  is_shadow = false;
  submit_order = λ _ e. answer e;
  place_stop = λ _ _ e. (ok tt, e);
  cancel_stop = λ _ e. (ok tt, e);
  cancel_order = λ _ e. (ok tt, e);
  snapshot = λ e. (ok empty_snapshot, e);
}

-- A strategy whose state is its target.
instance abbrev pub constant_target : Strategy Decimal
constant_target = record {
  warmup = 1;
  target = λ _ s. (s, s);
  on_flatten = λ s. s;
  on_recover = λ _ s. s;
}

abbrev pub run_one : Text
run_one = b'r' ∷ b'1' ∷ []

abbrev pub router_in : State → Decimal → Router Decimal
router_in st size = record {
  run_id = run_one;
  instrument_id = 7;
  categories = (7, crypto) ∷ [];
  limits = default_limits;
  exposure = default_exposure;
  strategy = whole 1;
  state = st;
  seq = 0;
  size = size;
  entry = none;
  stop_trigger = none;
  cumulative_funding = pos 0;
  pending_cid = none;
  pending_since = none;
  pending_intent = none;
  dseq = 0;
  last_margin_level = none;
}

abbrev pub empty_store : Store
empty_store = record { orders = []; positions = []; decisions = []; alerts = [] }

abbrev pub sample_ack : OrderAck
sample_ack = record {
  client_order_id = run_one;
  exchange_order_id = none;
  status = AckStatus.accepted;
  reason = "";
  ts = 5;
}

abbrev pub world_in : State → Decimal → List Submitted → World (List Submitted) Decimal
world_in st size script = record {
  router = router_in st size;
  store = empty_store;
  exec = script;
  now = 5;
}

abbrev pub sample_bar : Bar
sample_bar = record {
  instrument_id = 7;
  open_ts = 0;
  open_price = some (whole 50);
  high = some (whole 50);
  low = some (whole 50);
  close = some (whole 50);
  index_close = some (whole 50);
  funding_rate = none;
  spread_bps = pos 0;
  complete = true;
}

abbrev pub sample_fill : FillUpdate
sample_fill = record {
  client_order_id = run_one;
  instrument_id = 7;
  side = buy;
  quantity = whole 2;
  price = whole 50;
  fee = pos 0;
  ts = 5;
}

abbrev pub sample_intent : Intent
sample_intent = record {
  instrument_id = 7;
  side = buy;
  quantity = whole 2;
  notional = whole 100;
  reduce_only = false;
  reason = "strategy";
}

abbrev pub sample_request : OrderRequest
sample_request = record {
  client_order_id = run_one;
  instrument_id = 7;
  side = buy;
  quantity = whole 2;
  reduce_only = false;
  ts = 5;
}

abbrev pub sample_position : PositionView
sample_position = record {
  instrument_id = 7;
  size = whole 2;
  entry_price = whole 50;
  notional = whole 100;
  leverage = 3;
  liquidation_price = none;
  unrealised_pnl = pos 0;
  cumulative_funding = pos 0;
}

abbrev pub sample_tick : ℕ → Tick
sample_tick ts = record {
  instrument_id = 7;
  mark_price = whole 50;
  index_price = whole 50;
  last_price = whole 50;
  funding_rate = pos 0;
  next_funding = 0;
  exchange_ts = ts;
  received_ts = ts;
  source_type = polymarket_ws;
  sequence = some ts;
}
