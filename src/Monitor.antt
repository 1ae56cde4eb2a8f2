-- ===== src/Monitor.antt =====
-- polyperps/monitor/alerts.py: the alert record, the thresholds and the pure threshold helpers. An
-- alert's detail, text for a human, is left out. The sinks (log, SQLite, Telegram) are I/O: an
-- emitted alert is appended to a list.
use perpbot.Base.{
  ℕ, Option, none, some, String, if◌then◌else◌, ltb_ℤ, leb_ℤ, eqb_ℤ, pos, abs_ℤ, neg_ℤ, ◌-ℤ◌,
}
use perpbot.Decimal.{Decimal, hundredths, whole, ◌/ᴰ◌}

pub data Level : Type 0 where
  info warn critical : Level

pub record Alert : Type 0 where
  pub level : Level
  pub kind : String
  pub instrument_id : Option ℕ

-- `ALERT_THRESHOLDS`
abbrev pub margin_warn : Decimal
margin_warn = hundredths 35

abbrev pub margin_critical : Decimal
margin_critical = hundredths 28

abbrev pub pnl_warn : Decimal
pnl_warn = neg_ℤ (hundredths 5)

abbrev pub pnl_critical : Decimal
pnl_critical = neg_ℤ (hundredths 10)

abbrev pub funding_drift_x : Decimal
funding_drift_x = whole 3

abbrev pub alert : Level → String → Option ℕ → Alert
alert l k i = record { level = l; kind = k; instrument_id = i }

unfoldable pub margin_alert : Decimal → ℕ → Option Alert
margin_alert distance i =
    if ltb_ℤ distance margin_critical
    then some (alert critical "margin_ratio" (some i))
    else if ltb_ℤ distance margin_warn
    then some (alert warn "margin_ratio" (some i))
    else none

unfoldable pub pnl_alert : Decimal → Decimal → Option Alert
pnl_alert equity start_equity =
    if leb_ℤ start_equity (pos 0)
    then none
    else let dd = (equity -ℤ start_equity) /ᴰ start_equity in
      if leb_ℤ dd pnl_critical
      then some (alert critical "pnl_drawdown" none)
      else if leb_ℤ dd pnl_warn
      then some (alert warn "pnl_drawdown" none)
      else none

unfoldable pub funding_drift_alert : Decimal → Decimal → ℕ → Option Alert
funding_drift_alert realised_rate expected_rate i =
    if eqb_ℤ expected_rate (pos 0)
    then none
    else let ratio = abs_ℤ realised_rate /ᴰ abs_ℤ expected_rate in
      if ltb_ℤ ratio funding_drift_x then none else some (alert warn "funding_drift" (some i))
