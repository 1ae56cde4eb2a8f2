-- ===== src/Risk/PortfolioExposure.antt =====
-- polyperps/risk/portfolio_exposure.py. A category is one of the four that the code knows, or other.
pub mod Caps
use perpbot.Base.{
  ℕ, Bool, true, false, not, Option, none, some, List, [], ◌∷◌, if◌then◌else◌, ◌+ℤ◌, ◌-ℤ◌, leb_ℤ,
  ltb_ℤ, min_ℤ, neg_ℤ, pos, sum_by, filter_by,
}
use perpbot.Base.Dict.{Dict, lookup, nat_key}
use perpbot.Decimal.{Decimal, whole, hundredths, ◌*ᴰ◌, ◌/ᴰ◌}
use perpbot.Execution.Types.{Intent, PositionView, Side, buy, sell}
use perpbot.Risk.Verdict.{Verdict, allow, resize, reject}
use perpbot.Risk.LiquidationGuard.{existing_notional, is_entry, settle}

-- `_KNOWN`, and `other` for every text that is not in it
pub data Cluster : Type 0 where
  crypto equity_cluster index commodity other : Cluster

pub same_cluster : Cluster → Cluster → Bool
same_cluster crypto crypto = true
same_cluster equity_cluster equity_cluster = true
same_cluster index index = true
same_cluster commodity commodity = true
same_cluster other other = true
same_cluster _ _ = false

pub record ExposureLimits : Type 0 where
  pub gross : Decimal
  pub cluster_net : Decimal

-- `EXPOSURE`
abbrev pub default_exposure : ExposureLimits
default_exposure = record { gross = whole 1; cluster_net = hundredths 60 }

abbrev pub cluster_of : Dict ℕ Cluster → ℕ → Cluster
cluster_of categories i = elim (lookup i categories) [ none ↦ other | some c ↦ c ]

-- `sign * notional`
abbrev pub signed_by : Side → Decimal → Decimal
signed_by buy x = x
signed_by sell x = neg_ℤ x

abbrev pub intent_net : Intent → Decimal
intent_net i = signed_by i.side i.notional

abbrev pub position_net : PositionView → Decimal
position_net p = if ltb_ℤ (pos 0) p.size then p.notional else neg_ℤ p.notional

abbrev pub intent_in : Dict ℕ Cluster → Cluster → Intent → Bool
intent_in categories mine i = same_cluster (cluster_of categories i.instrument_id) mine

abbrev pub position_in : Dict ℕ Cluster → Cluster → PositionView → Bool
position_in categories mine p = same_cluster (cluster_of categories p.instrument_id) mine

-- `net_existing`
unfoldable pub net_notional : Dict ℕ Cluster → Cluster → List PositionView → List Intent → Decimal
net_notional categories mine positions pending =
    sum_by position_net (filter_by (position_in categories mine) positions)
    +ℤ sum_by intent_net (filter_by (intent_in categories mine) (filter_by is_entry pending))

unfoldable pub vet_exposure :
    Intent → List PositionView → Decimal → Dict ℕ Cluster → ExposureLimits → List Intent → Verdict
vet_exposure intent positions equity categories limits pending =
    let mine = cluster_of categories intent.instrument_id in
    let gross_existing = existing_notional positions pending in
    let net_existing = net_notional categories mine positions pending in
    let gross_room = limits.gross *ᴰ equity -ℤ gross_existing in
    let cluster_room = limits.cluster_net *ᴰ equity -ℤ signed_by intent.side net_existing in
    if leb_ℤ equity (pos 0)
    then reject "equity <= 0"
    else if leb_ℤ gross_room (pos 0)
    then reject "gross exposure cap already used"
    else if leb_ℤ cluster_room (pos 0)
    then reject "cluster net cap already used"
    else settle (min_ℤ (min_ℤ intent.notional gross_room) cluster_room) intent.notional
        (intent.notional /ᴰ intent.quantity)
