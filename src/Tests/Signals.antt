-- ===== src/Tests/Signals.antt =====
-- Runs of the strategies.
use perpbot.Base.{◌+◌, true, some, [], ◌∷◌, ◌≡◌, refl, All, pos, arith, ltb, if◌then◌else◌}
use perpbot.Base.Dict.{nat_key}
use perpbot.Decimal.{whole}
use perpbot.Strategies.{Statistics, one}
use perpbot.Strategies.Built.{h4, h5, holding, build_strategy, decide, flatten, recover, run_built}
use perpbot.Strategies.Built.Holding.{held_after, held_for, next_of, held_after_bars}
use perpbot.Strategies.Built.PointInTime.{target-SameAt}
use perpbot.Strategies.Built.Sides.{IsSide, run_built-IsSide}
use perpbot.Strategies.Faded.{Closes, basis_target}
use perpbot.Strategies.Timed.{Held, at_rest, lead_lag, lead_lag_next}
use perpbot.Tests.{sample_bar}

abbrev flat_statistics : Statistics
flat_statistics = record { has_no_spread = λ vs. true; last_score = λ vs. pos 0 }

abbrev no_closes : Closes
no_closes = []

built_h4 :
    build_strategy flat_statistics (h4 (whole 25) 3) (some no_closes)
    ≡ some (holding (lead_lag (whole 25) 3 no_closes))
unfolding build_strategy
built_h4 = refl

run_built-IsSide_example : All IsSide (
    run_built
      (holding (lead_lag (whole 25) 3 no_closes))
      (recover true ∷ decide (sample_bar ∷ []) ∷ flatten ∷ decide (sample_bar ∷ []) ∷ []))
run_built-IsSide_example =
    run_built-IsSide flat_statistics (h4 (whole 25) 3) (some no_closes)
      (holding (lead_lag (whole 25) 3 no_closes))
      (recover true ∷ decide (sample_bar ∷ []) ∷ flatten ∷ decide (sample_bar ∷ []) ∷ []) built_h4

abbrev just_opened : Held
just_opened = record { position = one; held = 0 }

held_after_bars_example :
    held_after
      (next_of flat_statistics no_closes (h5 (whole 3) 2))
      ([] ∷ (sample_bar ∷ []) ∷ [])
      just_opened
    ≡ (if ltb (2 + 0) 2 then held_for (2 + 0) just_opened else at_rest)
held_after_bars_example =
    held_after_bars flat_statistics no_closes (h5 (whole 3) 2) 2 ([] ∷ (sample_bar ∷ []) ∷ [])
      just_opened refl refl (omega arith) (omega arith)

-- A close of a later hour changes nothing.
target-SameAt_example :
    (basis_target flat_statistics 1 (whole 2) no_closes (sample_bar ∷ []) one
      ≡ basis_target flat_statistics 1 (whole 2) ((3600, whole 9) ∷ []) (sample_bar ∷ []) one)
    × (lead_lag_next (whole 25) 3 no_closes (sample_bar ∷ []) at_rest
        ≡ lead_lag_next (whole 25) 3 ((3600, whole 9) ∷ []) (sample_bar ∷ []) at_rest)
target-SameAt_example =
    target-SameAt flat_statistics 1 3 (whole 2) (whole 25) no_closes ((3600, whole 9) ∷ [])
      (sample_bar ∷ []) one at_rest (refl, tt)
