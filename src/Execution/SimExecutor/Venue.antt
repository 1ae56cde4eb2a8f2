-- ===== src/Execution/SimExecutor/Venue.antt =====
-- What the paper account shows and does by itself: check_triggers and snapshot; and the account as an
-- Executor.
use perpbot.Base.{
  ℕ, ◌+◌, Bool, true, false, not, ◌&&◌, ◌||◌, Option, none, some, List, [], ◌∷◌, ◌++◌,
  if◌then◌else◌, pos, ◌+ℤ◌, ◌-ℤ◌, abs_ℤ, sum_by, ltb_ℤ, leb_ℤ,
}
use perpbot.Base.Dict.{Dict, lookup, erase, nat_key}
use perpbot.Decimal.{Decimal, ◌*ᴰ◌}
use perpbot.Execution.ClientId.{cid}
use perpbot.Execution.Types.{
  buy, sell, Text, OrderRequest, FillUpdate, PositionView, AccountSnapshot,
}
use perpbot.Execution.World.{failed, Result, ok, err, Executor}
use perpbot.Risk.LiquidationGuard.{default_limits, liquidation_price}
use perpbot.Execution.SimExecutor.{Pos, Account, is_positive, is_nil, pos_of, fill_at}
use perpbot.Execution.SimExecutor.Orders.{submit, place_stop, cancel_stop}

-- A stop that fires: `mark <= trig` for a long position, `mark >= trig` for a short one.
abbrev pub is_fired : (size mark trigger : Decimal) → Bool
is_fired size mark trigger =
    (is_positive size && leb_ℤ mark trigger) || (ltb_ℤ size (pos 0) && leb_ℤ trigger mark)

abbrev pub sim_stop : Text
sim_stop = b's' ∷ b'i' ∷ b'm' ∷ b'-' ∷ b's' ∷ b't' ∷ b'o' ∷ b'p' ∷ []

abbrev pub stop_order : ℕ → Decimal → Account → OrderRequest
stop_order i size a = record {
  client_order_id = cid sim_stop i (a.n + 1);
  instrument_id = i;
  side = if is_positive size then sell else buy;
  quantity = abs_ℤ size;
  reduce_only = true;
  ts = a.clock;
}

abbrev pub fire : ℕ → (size trigger : Decimal) → Account → List FillUpdate × Account
fire i size trigger a =
    let (f, b) = fill_at (stop_order i size a) (abs_ℤ size) trigger (record a { n = a.n + 1 }) in
    (f ∷ [], record b { stops = erase i b.stops })

-- The turn of the loop for the stop of one instrument.
abbrev pub trigger_at : ℕ → Decimal → Option Decimal → Decimal → Account → List FillUpdate × Account
trigger_at i size none trigger a = ([], a)
trigger_at i size (some mark) trigger a =
    if not (is_nil size) && is_fired size mark trigger then fire i size trigger a else ([], a)

unfoldable pub trigger_one : ℕ → Decimal → Account → List FillUpdate × Account
unfolding fill_at
trigger_one i trigger a =
    trigger_at i (pos_of (lookup i a.positions)).size (lookup i a.marks) trigger a

unfoldable pub trigger_all : Dict ℕ Decimal → Account → List FillUpdate × Account
trigger_all [] a = ([], a)
trigger_all ((i, trigger) ∷ stops) a =
    let (fs, b) = trigger_one i trigger a in let (gs, c) = trigger_all stops b in (fs ++ gs, c)

-- `check_triggers`
unfoldable pub check_triggers : Account → List FillUpdate × Account
check_triggers a = trigger_all a.stops a

abbrev pub view : ℕ → Pos → Decimal → PositionView
view i p mark = record {
  instrument_id = i;
  size = p.size;
  entry_price = p.entry;
  notional = abs_ℤ p.size *ᴰ mark;
  leverage = default_limits.max_leverage;
  liquidation_price = some (liquidation_price p.size p.entry default_limits);
  unrealised_pnl = p.size *ᴰ (mark -ℤ p.entry);
  cumulative_funding = p.funding;
}

abbrev pub view_of : ℕ → Pos → Option Decimal → List PositionView → Option (List PositionView)
view_of i p none rest = none
view_of i p (some mark) rest = some (view i p mark ∷ rest)

-- The open positions at their marks; `none` where a mark is missing.
unfoldable pub views : Dict ℕ Decimal → Dict ℕ Pos → Option (List PositionView)
views marks [] = some []
views marks ((i, p) ∷ ps) = elim (views marks ps) [
  | none ↦ none
  | some rest ↦ if is_nil p.size then some rest else view_of i p (lookup i marks) rest
]

abbrev pub unrealised : PositionView → Decimal
unrealised p = p.unrealised_pnl

abbrev pub snapshot_of : Account → List PositionView → AccountSnapshot
snapshot_of a ps = record {
  equity = a.cash +ℤ sum_by unrealised ps;
  positions = ps;
  open_orders = [];
  stops = a.stops;
  in_liquidation = false;
  ts = a.clock;
}

unfoldable pub snapshot : Account → Result AccountSnapshot × Account
snapshot a = elim (views a.marks a.positions) [
  | none ↦ (err failed, a)
  | some ps ↦ (ok (snapshot_of a ps), a)
]

-- The paper account behind the router's interface.
instance abbrev pub sim_executor : Executor Account
sim_executor = record {
  is_shadow = false;
  submit_order = submit;
  place_stop = place_stop;
  cancel_stop = cancel_stop;
  cancel_order = λ _ a. (ok tt, a);
  snapshot = snapshot;
}
