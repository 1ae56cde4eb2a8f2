-- ===== src/Risk/LiquidationGuard.antt =====
-- polyperps/risk/liquidation_guard.py, but for the verdicts (Risk/Verdict).
pub mod Entry
pub mod Prices
use perpbot.Base.{
  ℕ, suc, Bool, true, false, not, Option, none, some, List, [], ◌∷◌, if◌then◌else◌, ◌+ℤ◌, ◌-ℤ◌,
  leb_ℤ, ltb_ℤ, eqb_ℤ, min_ℤ, abs_ℤ, neg_ℤ, pos, sum_by, filter_by, ◌||◌,
}
use perpbot.Decimal.{Decimal, whole, hundredths, ◌*ᴰ◌, ◌/ᴰ◌, quantize, quantize_down, q8, cents}
use perpbot.Execution.Types.{Intent, PositionView, AccountSnapshot}
use perpbot.Risk.Verdict.{Verdict, allow, resize, reject}

pub record RiskLimits : Type 0 where
  pub max_leverage : ℕ
  pub min_liq_distance : Decimal
  pub stop_distance : Decimal
  pub notional_usd : Decimal
  pub max_funding_cost : Decimal
  pub maintenance_rate : Decimal

-- `LIMITS`
abbrev pub default_limits : RiskLimits
default_limits = record {
  max_leverage = 3;
  min_liq_distance = hundredths 25;
  stop_distance = hundredths 15;
  notional_usd = whole 100;
  max_funding_cost = hundredths 2;
  maintenance_rate = hundredths 2;
}

abbrev pub position_notional : PositionView → Decimal
position_notional p = p.notional

abbrev pub intent_notional : Intent → Decimal
intent_notional i = i.notional

abbrev pub is_entry : Intent → Bool
is_entry i = not i.reduce_only

-- `existing` of `vet_entry`, and `gross_existing` of `vet_exposure`
unfoldable pub existing_notional : List PositionView → List Intent → Decimal
existing_notional positions pending =
    sum_by position_notional positions +ℤ sum_by intent_notional (filter_by is_entry pending)

-- `cap_notional`
unfoldable pub leverage_room : Decimal → Decimal → RiskLimits → Decimal
leverage_room equity existing limits = whole limits.max_leverage *ᴰ equity -ℤ existing

-- `floor_notional`
unfoldable pub floor_room : Decimal → Decimal → RiskLimits → Decimal
floor_room equity existing limits =
    (whole 1 /ᴰ (limits.min_liq_distance +ℤ limits.maintenance_rate)) *ᴰ equity -ℤ existing

-- The end of both guards: `Allow()` if nothing was cut, else the quantity that the rest buys.
unfoldable pub settle : (allowed notional mark : Decimal) → Verdict
settle allowed notional mark =
    if leb_ℤ notional allowed then allow else resize (quantize_down q8 (allowed /ᴰ mark))

unfoldable pub vet_entry : Intent → Decimal → AccountSnapshot → RiskLimits → List Intent → Verdict
vet_entry intent mark snapshot limits pending =
    let existing = existing_notional snapshot.positions pending in
    let cap_notional = leverage_room snapshot.equity existing limits in
    let floor_notional = floor_room snapshot.equity existing limits in
    if leb_ℤ snapshot.equity (pos 0)
    then reject "equity <= 0"
    else if leb_ℤ cap_notional (pos 0)
    then reject "leverage cap already used"
    else if leb_ℤ floor_notional (pos 0)
    then reject "liquidation-distance floor leaves no room"
    else settle (min_ℤ (min_ℤ intent.notional cap_notional) floor_notional) intent.notional mark

pub data Hold : Type 0 where
  hold flatten : Hold

-- `abs(liquidation_price - mark) / mark`
unfoldable pub liq_distance : Decimal → Decimal → Decimal
liq_distance liq mark = abs_ℤ (liq -ℤ mark) /ᴰ mark

abbrev pub check_distance : Option Decimal → Decimal → Decimal → RiskLimits → Hold
check_distance none size mark limits = hold
check_distance (some liq) size mark limits =
    if eqb_ℤ size (pos 0)
    then hold
    else if ltb_ℤ (liq_distance liq mark) limits.min_liq_distance
    then flatten
    else hold

unfoldable pub check_open : PositionView → Decimal → RiskLimits → Hold
check_open p mark limits = check_distance p.liquidation_price p.size mark limits

-- `stop_price`; the flag is `side == "long"`
unfoldable pub stop_price : Bool → Decimal → RiskLimits → Decimal
stop_price long entry limits =
    quantize cents
      (entry *ᴰ (if long then whole 1 -ℤ limits.stop_distance else whole 1 +ℤ limits.stop_distance))

unfoldable pub liquidation_price : Decimal → Decimal → RiskLimits → Decimal
liquidation_price size entry limits =
    let share = whole 1 /ᴰ whole limits.max_leverage in
    quantize cents (
      if ltb_ℤ (pos 0) size
      then entry *ᴰ (whole 1 -ℤ share +ℤ limits.maintenance_rate)
      else entry *ᴰ (whole 1 +ℤ share -ℤ limits.maintenance_rate))

unfoldable pub funding_exit_due : PositionView → RiskLimits → Bool
funding_exit_due p limits =
    leb_ℤ (limits.max_funding_cost *ᴰ p.notional) (neg_ℤ p.cumulative_funding)
