-- ===== src/Tests/Approvals.antt =====
-- Runs of the approval and of the sufficiency bar.
use perpbot.Base.{true, false, Option, some, [], ◌∷◌, ◌≡◌, refl, In, All, any, find_first}
use perpbot.Decimal.{whole, hundredths}
use perpbot.Exchange
use perpbot.Exchange.{is_native}
use perpbot.Execution.ClientId.{read_text, show, show_fuel}
use perpbot.Execution.Types.{Text, Time}
use perpbot.Signal.Approval.{
  text, number, flag, Record, Approval, polymarket_ws, record_passes, revokes, signed, strip, lower,
  str, load_validated,
}
use perpbot.Signal.Approval.Revoked.{IsApproved, Revokes, load_validated-IsApproved}
use perpbot.Signal.Sufficiency.{Holdout, default_bar, dataset_meets_bar, evaluate_run}
use perpbot.Tests.{run_one}

-- Times as numbers.
abbrev parse_number : Text → Option Time
parse_number t = read_text t

abbrev passing : Record
passing = record {
  run_id = text run_one;
  passed = flag true;
  harness_version = number 4;
  source_type = text polymarket_ws;
  sufficiency_met = some (flag true);
  robust_screened = flag true;
  end_ts = text (b'5' ∷ []);
  ts = text (b'7' ∷ []);
  hypothesis = text (b'h' ∷ b'6' ∷ []);
  instrument_id = number 7;
  fills_at_hourly_open = some (number 0);
}

abbrev failing : Record
failing = record passing { run_id = text []; passed = flag false; end_ts = text (b'6' ∷ []) }

abbrev approval : Approval
approval = record {
  run_id = text (32 ∷ run_one);
  approved_by = text (b'm' ∷ []);
  approved_at = text (b'7' ∷ []);
}

approved : load_validated parse_number (some approval) (some (passing ∷ [])) ≡ true
unfolding load_validated strip record_passes revokes str lower show show_fuel
approved = refl

load_validated-IsApproved_example :
    (t b d : Text) × (signed approval.run_id ≡ some t)
    × (signed approval.approved_by ≡ some b)
    × (signed approval.approved_at ≡ some d)
    × (r : Record) × In r (passing ∷ [])
    × IsApproved parse_number t r
    × All (λ q. Revokes parse_number q r → ⊥) (passing ∷ [])
load_validated-IsApproved_example =
    load_validated-IsApproved parse_number approval (passing ∷ []) approved

signed_run : signed approval.run_id ≡ some run_one
unfolding strip
signed_run = refl

found : find_first (record_passes parse_number run_one) (passing ∷ failing ∷ []) ≡ some passing
unfolding record_passes
found = refl

revoked : any (λ q. revokes parse_number q passing) (passing ∷ failing ∷ []) ≡ true
unfolding revokes str lower show show_fuel
revoked = refl

abbrev good_holdout : Holdout
good_holdout = record {
  source = Exchange.polymarket_ws;
  sufficiency = dataset_meets_bar (whole 61) 1200 Exchange.polymarket_ws default_bar;
  sharpe = whole 2;
  ci_lo = some (hundredths 1);
  ci_hi = some (hundredths 9);
  fills_at_hourly_open = 0;
  tested_days = whole 60;
  robust_screened = true;
}

run_passed : (evaluate_run good_holdout default_bar).1 ≡ true
unfolding evaluate_run dataset_meets_bar is_native
run_passed = refl
