-- ===== src/Tests/Guards.antt =====
-- Runs of the risk checks and of the tick filter.
use perpbot.Base.{
  ◌+ℤ◌, ℕ, true, false, none, some, String, List, [], ◌∷◌, ◌≡◌, refl, ◌↔◌, arith, pos, negsuc, ◌<ℤ◌,
  ◌≤ℤ◌, ◌-ℤ◌,
}
use perpbot.Base.Dict.{Dict, nat_key}
use perpbot.Decimal.{whole, ◌*ᴰ◌, ◌/ᴰ◌, quantize, round_half_even}
use perpbot.Execution.Types.{Intent}
use perpbot.Execution.Router.Send.{apply_guards, any_reject}
use perpbot.Execution.Router.Sending.{CutsTo, apply_guards_lem}
use perpbot.Ingest.Filters.{default_bounds, check_tick}
use perpbot.Ingest.Filters.Rules.{IsSane, check_tick_iff}
use perpbot.Ingest.MarketFeed.{run_feed, empty_feed}
use perpbot.Ingest.MarketFeed.Accepted.{IsTracked, run_feed-IsTracked}
use perpbot.Risk.LiquidationGuard.{default_limits, vet_entry, stop_price, liquidation_price}
use perpbot.Risk.LiquidationGuard.Entry.{Fits, vet_entry-Fits, held_worth, entries_worth}
use perpbot.Risk.LiquidationGuard.Prices.{stop_before_liquidation}
use perpbot.Risk.PortfolioExposure.{Cluster, crypto, default_exposure, vet_exposure}
use perpbot.Risk.PortfolioExposure.Caps.{vet_exposure-Fits, held_net, entries_net, left_for}
use perpbot.Risk.Verdict.{Verdict, resize}
use perpbot.Tests.{sample_tick, empty_snapshot, sample_intent, sample_position}

vet_entry-Fits_example :
    let used = held_worth empty_snapshot.positions +ℤ entries_worth (sample_intent ∷ []) in
    let floor = default_limits.min_liq_distance +ℤ default_limits.maintenance_rate in
    let v = vet_entry sample_intent (whole 50) empty_snapshot default_limits (sample_intent ∷ []) in
    Fits v sample_intent.notional
      (whole 50)
      (whole default_limits.max_leverage *ᴰ empty_snapshot.equity -ℤ used)
    × Fits v sample_intent.notional (whole 50) ((whole 1 /ᴰ floor) *ᴰ empty_snapshot.equity -ℤ used)
vet_entry-Fits_example =
    vet_entry-Fits sample_intent (whole 50) empty_snapshot default_limits (sample_intent ∷ [])
      (omega arith)

abbrev all_crypto : Dict ℕ Cluster
all_crypto = (7, crypto) ∷ []

price_positive : pos 0 <ℤ (sample_intent.notional /ᴰ sample_intent.quantity)
unfolding ◌/ᴰ◌ round_half_even
price_positive = omega arith

vet_exposure-Fits_example :
    let held = sample_position ∷ [] in
    let waiting = sample_intent ∷ [] in
    let v = vet_exposure sample_intent held (whole 500) all_crypto default_exposure waiting in
    let price = sample_intent.notional /ᴰ sample_intent.quantity in
    let net = held_net all_crypto crypto held +ℤ entries_net all_crypto crypto waiting in
    let used = held_worth held +ℤ entries_worth waiting in
    Fits v sample_intent.notional price (default_exposure.gross *ᴰ whole 500 -ℤ used)
    × Fits v sample_intent.notional price
        (left_for sample_intent.side (default_exposure.cluster_net *ᴰ whole 500) net)
vet_exposure-Fits_example =
    vet_exposure-Fits sample_intent (sample_position ∷ []) (whole 500) all_crypto default_exposure
      (sample_intent ∷ []) price_positive

stop_before_liquidation_example :
    (liquidation_price (pos 1) (whole 50) default_limits
      <ℤ stop_price true (whole 50) default_limits)
    × (stop_price true (whole 50) default_limits <ℤ whole 50)
    × (whole 50 <ℤ stop_price false (whole 50) default_limits)
    × (stop_price false (whole 50) default_limits
        <ℤ liquidation_price (negsuc 0) (whole 50) default_limits)
stop_before_liquidation_example =
    stop_before_liquidation 500_000_000_000_000_000_000_000_000_000 0 (omega arith)

check_tick_iff_example :
    (check_tick (sample_tick 4) default_bounds (some (sample_tick 9)) ≡ none)
    ↔ IsSane (sample_tick 4) default_bounds (some (sample_tick 9))
check_tick_iff_example = check_tick_iff (sample_tick 4) default_bounds (some (sample_tick 9))

run_feed-IsTracked_example : IsTracked default_bounds (
    run_feed default_bounds
      (some 2)
      (sample_tick 1 ∷ sample_tick 2 ∷ sample_tick 3 ∷ [])
      empty_feed)
run_feed-IsTracked_example =
    run_feed-IsTracked default_bounds (some 2) (sample_tick 1 ∷ sample_tick 2 ∷ sample_tick 3 ∷ [])

abbrev cut_intent : Intent
cut_intent = record sample_intent { quantity = whole 1; notional = whole 50 }

guards_cut : apply_guards sample_intent (("vet_entry", resize (whole 1)) ∷ []) ≡ some cut_intent
unfolding apply_guards ◌*ᴰ◌ ◌/ᴰ◌ round_half_even quantize
guards_cut = refl

apply_guards_lem_example :
    let vs : List (String × Verdict) = ("vet_entry", resize (whole 1)) ∷ [] in
    (any_reject vs ≡ false)
    × (cut_intent.quantity ≤ℤ sample_intent.quantity)
    × CutsTo cut_intent.quantity vs
    × (cut_intent.side ≡ sample_intent.side)
    × (cut_intent.instrument_id ≡ sample_intent.instrument_id)
    × (cut_intent.reduce_only ≡ sample_intent.reduce_only)
apply_guards_lem_example =
    apply_guards_lem sample_intent cut_intent (("vet_entry", resize (whole 1)) ∷ []) guards_cut
