-- ===== src/Ingest/Filters.antt =====
-- check_tick of polyperps/data_ingest/filters.py. A span of time is a number of microseconds; the age of a tick is negative when it was received early. The
-- detail text of a rejection is left out.
pub mod Rules
use perpbot.Base.{
  ℕ, Bool, true, false, ◌&&◌, ◌||◌, Option, none, some, if◌then◌else◌, ◌==◌, leb, ltb, ℤ, pos,
  ltb_ℤ, leb_ℤ, abs_ℤ, ◌-ℤ◌,
}
use perpbot.Decimal.{Decimal, hundredths, ◌/ᴰ◌}
use perpbot.Exchange.{Tick, same_source}

pub record SanityBounds : Type 0 where
  pub max_staleness : ℕ
  pub max_abs_funding_rate : Decimal
  pub max_mark_index_divergence : Decimal
  pub max_jump : Decimal
  pub max_baseline_age : ℕ

-- `DEFAULT_BOUNDS`
abbrev pub default_bounds : SanityBounds
default_bounds = record {
  max_staleness = 5_000_000;
  max_abs_funding_rate = hundredths 1;
  max_mark_index_divergence = hundredths 5;
  max_jump = hundredths 10;
  max_baseline_age = 60_000_000;
}

pub data Rejection : Type 0 where
  stale non_positive_price mark_index_divergence funding_out_of_bounds out_of_order price_jump :
      Rejection

abbrev pub out_of_sequence : Bool → Option ℕ → Option ℕ → Bool
out_of_sequence same (some before) (some now) = same && leb now before
out_of_sequence same none _ = false
out_of_sequence same (some _) none = false

-- `abs(a - b) / b`
unfoldable pub relative : Decimal → Decimal → Decimal
relative a b = abs_ℤ (a -ℤ b) /ᴰ b

-- The tests against the previous accepted tick.
abbrev pub check_previous : Tick → SanityBounds → Option Tick → Option Rejection
check_previous tick bounds none = none
check_previous tick bounds (some p) =
    if out_of_sequence (same_source p.source_type tick.source_type) p.sequence tick.sequence
    then some out_of_order
    else if leb_ℤ (pos tick.exchange_ts -ℤ pos p.exchange_ts) (pos bounds.max_baseline_age)
        && ltb_ℤ bounds.max_jump (relative tick.mark_price p.mark_price)
    then some price_jump
    else none

abbrev pub non_positive : Decimal → Bool
non_positive x = leb_ℤ x (pos 0)

unfoldable pub check_tick : Tick → SanityBounds → Option Tick → Option Rejection
check_tick tick bounds previous =
    if ltb_ℤ (pos bounds.max_staleness) (pos tick.received_ts -ℤ pos tick.exchange_ts)
    then some stale
    else if non_positive tick.mark_price
        || non_positive tick.index_price
        || non_positive tick.last_price
    then some non_positive_price
    else if ltb_ℤ bounds.max_mark_index_divergence (relative tick.mark_price tick.index_price)
    then some mark_index_divergence
    else if ltb_ℤ bounds.max_abs_funding_rate (abs_ℤ tick.funding_rate)
    then some funding_out_of_bounds
    else check_previous tick bounds previous
