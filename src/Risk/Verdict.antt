-- ===== src/Risk/Verdict.antt =====
-- The verdicts of polyperps/risk/liquidation_guard.py. A reject's reason is kept as text, without
-- the number that the source prints into it.
use perpbot.Base.{String}
use perpbot.Decimal.{Decimal}

pub data Verdict : Type 0 where
  allow : Verdict
  resize : Decimal → Verdict
  reject : String → Verdict
