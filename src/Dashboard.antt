-- ===== src/Dashboard.antt =====
-- polyperps/dashboard/state.py: the numbers of the page, from the stored snapshot and rows. They are decimals, not
-- their texts, and a float is the decimal that it stands for; names, the constant limits, the run's texts and the road to live are left out. The
-- instruments, where they are known, are given by their cluster.
pub mod Gaps
pub mod Breach
use perpbot.Base.{
  ℕ, zero, suc, ◌+◌, ◌-◌, Bool, true, false, not, ◌&&◌, ◌||◌, Option, none, some, is_some, or_else,
  List, [], ◌∷◌, ◌++◌, if◌then◌else◌, ltb, leb, ◌==◌, any, filter_by, last?, length, eqb_text, ℤ,
  pos, neg_ℤ, abs_ℤ, max_ℤ, ltb_ℤ, ◌+ℤ◌, ◌-ℤ◌,
}
use perpbot.Base.Dict.{Dict, lookup, nat_key}
use perpbot.Decimal.{Decimal, ◌*ᴰ◌, ◌/ᴰ◌}
use perpbot.Execution.Reconciliation.{starts_with}
use perpbot.Execution.Router.Rows.{is_frozen, is_zero, is_long}
use perpbot.Execution.Types.{
  State, open_position, PositionView, AccountSnapshot, OrderRow, RowStatus, venue, OrderStatus,
  PositionLocalRow, DecisionRow, Text, Time,
}
use perpbot.Gates.{is_enabled}
use perpbot.Monitor.{Alert, Level, info, warn, critical, margin_alert}
use perpbot.Risk.LiquidationGuard.{default_limits, liquidation_price}
use perpbot.Risk.PortfolioExposure.{Cluster, same_cluster, default_exposure}
use perpbot.Storage.{Store, order_rows, decisions_of}

-- The two conversions of Python: the decimal that `float(d)` stands for, and `Decimal(str(f))`.
pub record Floats : Type 0 where
  pub to_float : Decimal → Decimal
  pub from_text : Decimal → Decimal

-- An entry of `positions`.
pub record Shown : Type 0 where
  pub instrument_id : ℕ
  pub state : State
  pub size : Decimal
  pub entry_price : Decimal
  pub mark : Decimal
  pub pnl : Decimal
  pub liq_price : Decimal
  pub liq_distance : Decimal
  pub adverse_move : Decimal
  pub funding_paid : Decimal
  pub stop_trigger : Option Decimal
  pub opened_at : Option Time

pub record AccountNumbers : Type 0 where
  pub equity : Decimal
  pub start_equity : Decimal
  pub pnl_since_start : Decimal
  pub unrealized : Decimal
  pub gross_exposure : Decimal
  pub cluster_net : Option Decimal

abbrev pub is_filled_order : OrderRow → Bool
is_filled_order o = elim o.status [ venue OrderStatus.filled ↦ true | _ ↦ false ]

abbrev pub submitted_of : Option OrderRow → Option Time
submitted_of none = none
submitted_of (some o) = some o.submitted_at

-- `_opened_at`
unfoldable pub opened_at_of : ℕ → List OrderRow → Option Time
opened_at_of i orders =
    submitted_of
      (last? (filter_by (λ (o : OrderRow). o.instrument_id == i && not o.reduce_only) orders))

-- `x / y if y else 0`
abbrev pub ratio : Decimal → Decimal → Decimal
ratio x y = if is_zero y then pos 0 else x /ᴰ y

abbrev pub row_state : Option PositionLocalRow → State
row_state none = open_position
row_state (some row) = row.state

-- The body of the loop for a position that is not empty.
unfoldable pub shown_of :
    ⦃x : Floats⦄ → AccountSnapshot → Dict ℕ PositionLocalRow → List OrderRow → PositionView → Shown
shown_of ⦃x⦄ snap rows fills p =
    let mark = p.notional /ᴰ abs_ℤ p.size in
    let liq = or_else p.liquidation_price (liquidation_price p.size p.entry_price default_limits) in
    let move = ratio (mark -ℤ p.entry_price) p.entry_price in
    record {
      instrument_id = p.instrument_id;
      state = row_state (lookup p.instrument_id rows);
      size = p.size;
      entry_price = p.entry_price;
      mark = mark;
      pnl = p.unrealised_pnl;
      liq_price = liq;
      liq_distance = x.to_float (ratio (abs_ℤ (mark -ℤ liq)) mark);
      adverse_move = x.to_float (max_ℤ (pos 0) (if is_long p.size then neg_ℤ move else move));
      funding_paid =
          x.to_float (ratio (neg_ℤ p.cumulative_funding) (abs_ℤ p.size *ᴰ p.entry_price));
      stop_trigger = lookup p.instrument_id snap.stops;
      opened_at = opened_at_of p.instrument_id fills;
    }

unfoldable pub shown_all :
    ⦃x : Floats⦄
    → AccountSnapshot
    → Dict ℕ PositionLocalRow
    → List OrderRow
    → List PositionView
    → List Shown
shown_all snap rows fills [] = []
shown_all snap rows fills (p ∷ ps) =
    if is_zero p.size
    then shown_all snap rows fills ps
    else shown_of snap rows fills p ∷ shown_all snap rows fills ps

-- The sums of the loop: unrealised results, gross notional, and the net notional of each cluster.
pub record Totals : Type 0 where
  pub unreal : Decimal
  pub gross : Decimal
  pub net_by_cluster : List (Cluster × Decimal)
  pub all_known : Bool

abbrev pub add_net : Cluster → Decimal → List (Cluster × Decimal) → List (Cluster × Decimal)
add_net c x [] = (c, x) ∷ []
add_net c x ((d, y) ∷ r) = if same_cluster d c then (d, y +ℤ x) ∷ r else (d, y) ∷ add_net c x r

abbrev pub note_cluster : PositionView → Option Cluster → Totals → Totals
note_cluster p none t = record t { all_known = false }
note_cluster p (some c) t = record t {
  net_by_cluster =
      add_net c (if is_long p.size then p.notional else neg_ℤ p.notional) t.net_by_cluster;
}

abbrev pub cluster_in : Option (Dict ℕ Cluster) → ℕ → Option Cluster
cluster_in none i = none
cluster_in (some clusters) i = lookup i clusters

unfoldable pub totals : Option (Dict ℕ Cluster) → List PositionView → Totals → Totals
totals clusters [] t = t
totals clusters (p ∷ ps) t = totals clusters ps (
    if is_zero p.size
    then t
    else note_cluster p (cluster_in clusters p.instrument_id)
        (record t { unreal = t.unreal +ℤ p.unrealised_pnl; gross = t.gross +ℤ p.notional }))

-- `max((abs(v) for v in ...), default=0)`
abbrev pub worst_net : List (Cluster × Decimal) → Decimal
worst_net [] = pos 0
worst_net ((c, v) ∷ r) = max_ℤ (abs_ℤ v) (worst_net r)

-- `_f(a / b) if b else 0.0`
abbrev pub float_ratio : ⦃x : Floats⦄ → Decimal → Decimal → Decimal
float_ratio ⦃x⦄ a b = if is_zero b then pos 0 else x.to_float (a /ᴰ b)

abbrev pub account_of : ⦃x : Floats⦄ → AccountSnapshot → Decimal → Totals → AccountNumbers
account_of ⦃x⦄ snap start_equity t = record {
  equity = snap.equity;
  start_equity = start_equity;
  pnl_since_start = snap.equity -ℤ start_equity;
  unrealized = t.unreal;
  gross_exposure = float_ratio t.gross snap.equity;
  cluster_net =
      if t.all_known then some (float_ratio (worst_net t.net_by_cluster) snap.equity) else none;
}

-- `account_and_positions`, on the snapshot and start equity of `load_account_snapshot`
unfoldable pub account_and_positions :
    ⦃x : Floats⦄
    → Option (AccountSnapshot × Decimal)
    → Option (Dict ℕ Cluster)
    → Store
    → Option AccountNumbers × List Shown
account_and_positions none clusters s = (none, [])
account_and_positions (some (snap, start_equity)) clusters s =
    let fills = filter_by is_filled_order (order_rows s.orders) in
    let start : Totals = record {
      unreal = pos 0;
      gross = pos 0;
      net_by_cluster = [];
      all_known = is_some clusters;
    } in
    (
      some (account_of snap start_equity (totals clusters snap.positions start)),
      shown_all snap s.positions fills snap.positions,
    )

abbrev pub insert_id : ℕ → List ℕ → List ℕ
insert_id i [] = i ∷ []
insert_id i (j ∷ js) = if leb i j then i ∷ j ∷ js else j ∷ insert_id i js

-- `_halted`, sorted
unfoldable pub halted_ids : Dict ℕ PositionLocalRow → List ℕ
halted_ids [] = []
halted_ids ((i, row) ∷ d) = if is_frozen row.state then insert_id i (halted_ids d) else halted_ids d

abbrev pub margin_rank : Level → ℕ
margin_rank info = 0
margin_rank warn = 1
margin_rank critical = 2

abbrev pub worse_margin : Option Alert → Level → Level
worse_margin none best = best
worse_margin (some a) best = if ltb (margin_rank best) (margin_rank a.level) then a.level else best

-- The worst margin level of the positions, where `info` is "ok".
unfoldable pub worst_margin : ⦃x : Floats⦄ → List Shown → Level → Level
worst_margin [] best = best
worst_margin ⦃x⦄ (p ∷ ps) best =
    worst_margin ps (worse_margin (margin_alert (x.from_text p.liq_distance) p.instrument_id) best)

pub record Guards : Type 0 where
  pub margin : Level
  pub liquidation_breach : Bool
  pub exposure_breach : Bool
  pub halted : List ℕ

abbrev pub is_close : ⦃x : Floats⦄ → Shown → Bool
is_close ⦃x⦄ p = ltb_ℤ p.liq_distance (x.to_float default_limits.min_liq_distance)

abbrev pub over_cluster : ⦃x : Floats⦄ → Option Decimal → Bool
over_cluster none = false
over_cluster ⦃x⦄ (some cn) = ltb_ℤ (x.to_float default_exposure.cluster_net) cn

abbrev pub over_exposure : ⦃x : Floats⦄ → Option AccountNumbers → Bool
over_exposure none = false
over_exposure ⦃x⦄ (some a) =
    ltb_ℤ (x.to_float default_exposure.gross) a.gross_exposure || over_cluster a.cluster_net

-- `guards`, without the last recovery
unfoldable pub guards : ⦃x : Floats⦄ → Option AccountNumbers → List Shown → Store → Guards
guards account positions s = record {
  margin = worst_margin positions info;
  liquidation_breach = any is_close positions;
  exposure_breach = over_exposure account;
  halted = halted_ids s.positions;
}

abbrev pub is_critical : Alert → Bool
is_critical a = elim a.level [ critical ↦ true | warn ↦ false | info ↦ false ]

abbrev pub is_empty_ids : List ℕ → Bool
is_empty_ids [] = true
is_empty_ids (i ∷ is) = false

unfoldable pub is_clean : Store → Bool
is_clean s = is_empty_ids (halted_ids s.positions) && not (any is_critical s.alerts)

-- `locks`: no instrument is in auto mode
unfoldable pub locks :
    List ℕ → Option Text → (signal_validated : Bool) → List (ℕ × Bool) × Bool × Bool
locks ids env signal_validated = (auto_modes ids, is_enabled env, signal_validated)
  where
    auto_modes : List ℕ → List (ℕ × Bool)
    auto_modes [] = []
    auto_modes (i ∷ is) = (i, false) ∷ auto_modes is

-- `list_runs`, on the run ids of the snapshots in their order
abbrev pub list_runs : Text → List Text → List Text
list_runs main_run_id rows = main_run_id ∷ filter_by (starts_with (main_run_id ++ (b'-' ∷ []))) rows
