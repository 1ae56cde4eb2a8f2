-- ===== src/Signal/Sufficiency.antt =====
-- The bar and dataset_meets_bar of polyperps/signal/sufficiency.py, and evaluate_run of
-- polyperps/signal/validation_log.py. The Sharpe ratio and the ends of the interval, floats in the source,
-- are decimals; of a shortfall its texts are left out.
use perpbot.Base.{
  ℕ, Bool, true, false, not, ◌&&◌, Option, none, some, List, [], ◌∷◌, ◌++◌, ◌≡◌, sym, ap, ◌∙◌,
  arith, ltb, ◌==◌, leb_ℤ, ltb_ℤ, pos, ◌≤ℤ◌, ◌<ℤ◌, ◌≤◌,
}
use perpbot.Decimal.{Decimal, whole}
use perpbot.Exchange.{SourceType, is_native}

-- The fields of `SufficiencyBar` that are read here.
pub record SufficiencyBar : Type 0 where
  pub native_only : Bool
  pub min_days : ℕ
  pub min_funding_periods : ℕ
  pub min_oos_sharpe : Decimal

-- `BAR`
abbrev pub default_bar : SufficiencyBar
default_bar = record {
  native_only = true;
  min_days = 60;
  min_funding_periods = 1000;
  min_oos_sharpe = whole 1;
}

pub data Shortfall : Type 0 where
  source_type days funding_periods : Shortfall

pub record SufficiencyReport : Type 0 where
  pub met : Bool
  pub shortfall : List Shortfall

abbrev short_if : Bool → Shortfall → List Shortfall
short_if true s = s ∷ []
short_if false s = []

abbrev is_empty : List Shortfall → Bool
is_empty [] = true
is_empty (s ∷ ss) = false

-- `dataset_meets_bar`
unfoldable pub dataset_meets_bar : Decimal → ℕ → SourceType → SufficiencyBar → SufficiencyReport
dataset_meets_bar spanned periods source bar =
    let shortfall =
      short_if (bar.native_only && not (is_native source)) source_type
      ++ (short_if (ltb_ℤ spanned (whole bar.min_days)) days
          ++ short_if (ltb periods bar.min_funding_periods) funding_periods) in
    record { met = is_empty shortfall; shortfall = shortfall }

-- `stats_clear_bar`
abbrev pub stats_clear_bar : (oos_sharpe ci_lo : Decimal) → SufficiencyBar → Bool
stats_clear_bar oos_sharpe ci_lo bar = leb_ℤ bar.min_oos_sharpe oos_sharpe && ltb_ℤ (pos 0) ci_lo

-- The arguments of `evaluate_run` but the bar.
pub record Holdout : Type 0 where
  pub source : SourceType
  pub sufficiency : SufficiencyReport
  pub sharpe : Decimal
  pub ci_lo : Option Decimal
  pub ci_hi : Option Decimal
  pub fills_at_hourly_open : ℕ
  pub tested_days : Decimal
  pub robust_screened : Bool

abbrev evaluate_between : Option Decimal → Option Decimal → Holdout → SufficiencyBar → Bool × Bool
evaluate_between (some lo) (some hi) h bar =
    let screened = stats_clear_bar h.sharpe lo bar in
    (
      screened,
      screened
          && (is_native h.source
              && (h.sufficiency.met
                  && (h.fills_at_hourly_open == 0
                      && (leb_ℤ (whole bar.min_days) h.tested_days && h.robust_screened)))),
    )
evaluate_between _ _ h bar = (false, false)

-- `evaluate_run`: whether the run is screened, and whether it passed
unfoldable pub evaluate_run : Holdout → SufficiencyBar → Bool × Bool
evaluate_run h bar = evaluate_between h.ci_lo h.ci_hi h bar

-- What a pass says of the run, its dataset and its statistics.
pub record IsSufficient (h : Holdout) (spanned : Decimal) (periods : ℕ) (lo : Decimal)
    (bar : SufficiencyBar) : Type 0 where
  pub lower_bound : h.ci_lo ≡ some lo
  pub positive : pos 0 <ℤ lo
  pub sharp : bar.min_oos_sharpe ≤ℤ h.sharpe
  pub native : is_native h.source ≡ true
  pub long_enough : whole bar.min_days ≤ℤ spanned
  pub funded : bar.min_funding_periods ≤ periods
  pub priced : h.fills_at_hourly_open ≡ 0
  pub tested : whole bar.min_days ≤ℤ h.tested_days
  pub robust : h.robust_screened ≡ true

met_lem :
    (spanned : Decimal) (periods : ℕ) (source : SourceType) (bar : SufficiencyBar)
    → (dataset_meets_bar spanned periods source bar).met ≡ true
    → (whole bar.min_days ≤ℤ spanned) × (bar.min_funding_periods ≤ periods)
unfolding dataset_meets_bar
met_lem spanned periods source bar m = ground arith

-- What the tests of evaluate_run say, with the dataset's report as it is.
between_lem :
    (lo : Decimal) (hi : Option Decimal) (h : Holdout) (bar : SufficiencyBar)
    → (evaluate_between (some lo) hi h bar).1 ≡ true
    → (pos 0 <ℤ lo)
      × (bar.min_oos_sharpe ≤ℤ h.sharpe)
      × (is_native h.source ≡ true)
      × (h.sufficiency.met ≡ true)
      × (h.fills_at_hourly_open ≡ 0)
      × (whole bar.min_days ≤ℤ h.tested_days)
      × (h.robust_screened ≡ true)
between_lem lo none h bar p = cc
between_lem lo (some hi) h bar p = (
  ground arith,
  ground arith,
  ground arith,
  ground arith,
  ground arith,
  ground arith,
  ground arith,
)

-- A run that passes on a dataset's report has a positive lower bound, its Sharpe ratio at the floor, a native
-- source, a dataset and a tested span that are long enough, no fill of the holdout at the hourly open, and a
-- robust run that cleared the bar too.
pub evaluate_run-IsSufficient :
    (h : Holdout) (spanned : Decimal) (periods : ℕ) (lo : Decimal) (bar : SufficiencyBar)
    → h.ci_lo ≡ some lo
    → h.sufficiency ≡ dataset_meets_bar spanned periods h.source bar
    → (evaluate_run h bar).1 ≡ true
    → IsSufficient h spanned periods lo bar
unfolding evaluate_run
evaluate_run-IsSufficient h spanned periods lo bar l s p =
    let (positive, sharp, native, met, priced, tested, robust) =
      between_lem lo h.ci_hi h bar (ap (λ c. (evaluate_between c h.ci_hi h bar).1) (sym l) ∙ p) in
    let (long_enough, funded) =
      met_lem spanned periods h.source bar (ap (λ (r : SufficiencyReport). r.met) (sym s) ∙ met) in
    record {
      lower_bound = l;
      positive = positive;
      sharp = sharp;
      native = native;
      long_enough = long_enough;
      funded = funded;
      priced = priced;
      tested = tested;
      robust = robust;
    }
