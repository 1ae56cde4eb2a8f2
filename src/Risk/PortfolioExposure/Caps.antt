-- ===== src/Risk/PortfolioExposure/Caps.antt =====
-- What `vet_exposure` lets through: the gross cap and the cluster's net cap.
use perpbot.Base.{
  ℕ, ◌<ℤ◌, ◌-ℤ◌, ◌+ℤ◌, neg_ℤ, ltb_ℤ, pos, List, [], ◌∷◌, sum_by, filter_by, ap, refl, ◌≡◌,
  if◌then◌else◌, Bool-cases, inl, inr, arith,
}
use perpbot.Base.Dict.{Dict}
use perpbot.Decimal.{Decimal, ◌*ᴰ◌, ◌/ᴰ◌}
use perpbot.Execution.Types.{Intent, PositionView, Side, buy, sell}
use perpbot.Risk.LiquidationGuard.{existing_notional, is_entry}
use perpbot.Risk.LiquidationGuard.Entry.{
  Fits, guarded-Fits, held_worth, entries_worth, existing_notional-held_worth,
}
use perpbot.Risk.PortfolioExposure.{
  Cluster, ExposureLimits, same_cluster, cluster_of, position_net, intent_net, position_in,
  intent_in, signed_by, net_notional, vet_exposure,
}

-- What is long less what is short, of the positions of a cluster and of the intents that may open one in it.
abbrev pub held_net : Dict ℕ Cluster → Cluster → List PositionView → Decimal
held_net categories mine [] = pos 0
held_net categories mine (p ∷ ps) =
    let rest = held_net categories mine ps in
    if same_cluster (cluster_of categories p.instrument_id) mine
    then (if ltb_ℤ (pos 0) p.size then p.notional +ℤ rest else neg_ℤ p.notional +ℤ rest)
    else rest

abbrev pub entries_net : Dict ℕ Cluster → Cluster → List Intent → Decimal
entries_net categories mine [] = pos 0
entries_net categories mine (i ∷ is) =
    let rest = entries_net categories mine is in
    if i.reduce_only
    then rest
    else if same_cluster (cluster_of categories i.instrument_id) mine
    then elim i.side [ buy ↦ i.notional +ℤ rest | sell ↦ neg_ℤ i.notional +ℤ rest ]
    else rest

-- What a net amount leaves of a cap for one side.
abbrev pub left_for : Side → (total net : Decimal) → Decimal
left_for buy total net = total -ℤ net
left_for sell total net = total +ℤ net

held_net_lem :
    (categories : Dict ℕ Cluster) (mine : Cluster) (ps : List PositionView)
    → sum_by position_net (filter_by (position_in categories mine) ps) ≡ held_net categories mine ps
held_net_lem categories mine [] = refl
held_net_lem categories mine (p ∷ ps) =
    let rest = held_net_lem categories mine ps in
    elim (Bool-cases (same_cluster (cluster_of categories p.instrument_id) mine)) [
      | inr other ↦ rw other rest
      | inl same ↦ elim (Bool-cases (ltb_ℤ (pos 0) p.size)) [
        | inl long ↦ rw (same, long) (ap (λ (t : Decimal). p.notional +ℤ t) rest)
        | inr short ↦ rw (same, short) (ap (λ (t : Decimal). neg_ℤ p.notional +ℤ t) rest)
      ]
    ]

entries_net_lem :
    (categories : Dict ℕ Cluster) (mine : Cluster) (is : List Intent)
    → sum_by intent_net (filter_by (intent_in categories mine) (filter_by is_entry is))
      ≡ entries_net categories mine is
entries_net_lem categories mine [] = refl
entries_net_lem categories mine (i ∷ is) =
    let rest = entries_net_lem categories mine is in
    elim (Bool-cases i.reduce_only) [
      | inl closing ↦ rw closing rest
      | inr entry ↦ elim (Bool-cases (same_cluster (cluster_of categories i.instrument_id) mine)) [
        | inr other ↦ rw (entry, other) rest
        | inl same ↦ rw (entry, same) (added i.side i.notional rest)
      ]
    ]
  where
    added :
        (side : Side) (x : Decimal) {a b : Decimal}
        → a ≡ b
        → signed_by side x +ℤ a ≡ elim side [ buy ↦ x +ℤ b | sell ↦ neg_ℤ x +ℤ b ]
    added buy x e = ap (λ (t : Decimal). x +ℤ t) e
    added sell x e = ap (λ (t : Decimal). neg_ℤ x +ℤ t) e

neg_twice : (a b : Decimal) → a -ℤ neg_ℤ b ≡ a +ℤ b
unfolding ◌-ℤ◌ ◌+ℤ◌
neg_twice a b = ground arith

left_for_lem :
    (side : Side) (total net : Decimal) → total -ℤ signed_by side net ≡ left_for side total net
left_for_lem buy total net = refl
left_for_lem sell total net = neg_twice total net

-- For a positive price, an entry that `vet_exposure` allows or cuts down fits what the notional of all positions and
-- of all pending entries leaves of the gross cap, and what the net of the positions and pending entries of its own
-- cluster leaves of the cluster's cap for its side, up to rounding.
pub vet_exposure-Fits :
    (intent : Intent) (positions : List PositionView) (equity : Decimal)
    (categories : Dict ℕ Cluster) (limits : ExposureLimits) (pending : List Intent)
    → pos 0 <ℤ (intent.notional /ᴰ intent.quantity)
    → let v = vet_exposure intent positions equity categories limits pending in
      let price = intent.notional /ᴰ intent.quantity in
      let mine = cluster_of categories intent.instrument_id in
      let net = held_net categories mine positions +ℤ entries_net categories mine pending in
      let used = held_worth positions +ℤ entries_worth pending in
      Fits v intent.notional price (limits.gross *ᴰ equity -ℤ used)
      × Fits v intent.notional price (left_for intent.side (limits.cluster_net *ᴰ equity) net)
unfolding vet_exposure net_notional
vet_exposure-Fits intent positions equity categories limits pending hm =
    let mine = cluster_of categories intent.instrument_id in
    let net = net_notional categories mine positions pending in
    rw
      (
        ← existing_notional-held_worth positions pending,
        ← held_net_lem categories mine positions,
        ← entries_net_lem categories mine pending,
        ← left_for_lem intent.side (limits.cluster_net *ᴰ equity) net,
      )
      (guarded-Fits equity (limits.gross *ᴰ equity -ℤ existing_notional positions pending)
        (limits.cluster_net *ᴰ equity -ℤ signed_by intent.side net) intent.notional
        (intent.notional /ᴰ intent.quantity) "equity <= 0" "gross exposure cap already used"
        "cluster net cap already used" hm)
