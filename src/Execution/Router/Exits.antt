-- ===== src/Execution/Router/Exits.antt =====
-- Leaving a position, the kill switch, the operator's calls and the pending timeout: _exit, shutdown,
-- clear_halt, adopt_pending and check_pending.
use perpbot.Base.{
  ℕ, ◌-◌, Bool, true, false, not, ◌&&◌, ◌||◌, Option, none, some, or_else, String, List, [],
  if◌then◌else◌, ltb, ltb_ℤ, abs_ℤ, pos,
}
use perpbot.Decimal.{Decimal, ◌*ᴰ◌, quantize, cents}
use perpbot.Execution.Types.{
  State, flat, entry_pending, open_position, exit_pending, liquidated, halted, Side, buy, sell,
  Intent, AccountSnapshot, Text, Time, timeout_adopted,
}
use perpbot.Execution.Router.Rows.{
  is_pending, is_zero, is_long, set_state, record_decision, update_order,
}
use perpbot.Execution.Router.Stops.{adopt_and_settle, settled_state}
use perpbot.Execution.Router.Send.{send}
use perpbot.Execution.World.{failed, ok, err, Executor, Strategy, Action, assign, skip, emit, ◌>>◌}
use perpbot.Monitor.{Level, Alert, info, warn, critical}
use perpbot.Risk.KillSwitch
use perpbot.Risk.KillSwitch.{run, pause}
use perpbot.Risk.Verdict.{Verdict}

-- `PENDING_TIMEOUT_S`, in microseconds
abbrev pub pending_timeout : ℕ
pending_timeout = 30_000_000

abbrev pub skip_note : State → String
skip_note flat = "skip:FLAT"
skip_note entry_pending = "skip:ENTRY_PENDING"
skip_note open_position = "skip:OPEN"
skip_note exit_pending = "skip:EXIT_PENDING"
skip_note liquidated = "skip:LIQUIDATED"
skip_note halted = "skip:HALTED"

abbrev pub closing_side : Decimal → Side
closing_side size = if is_long size then sell else buy

abbrev pub exit_intent : ℕ → Decimal → Decimal → String → Intent
exit_intent instrument_id mark size reason = record {
  instrument_id = instrument_id;
  side = closing_side size;
  quantity = abs_ℤ size;
  notional = quantize cents (abs_ℤ size *ᴰ mark);
  reduce_only = true;
  reason = reason;
}

abbrev pub entry_side : Decimal → Side
entry_side target = if is_long target then buy else sell

-- `(size > 0 and target < 0) or (size < 0 and target > 0)`
abbrev pub is_flip : Decimal → Decimal → Bool
is_flip size target =
    (ltb_ℤ (pos 0) size && ltb_ℤ target (pos 0)) || (ltb_ℤ size (pos 0) && ltb_ℤ (pos 0) target)

abbrev pub is_pause : KillSwitch.Action → Bool
is_pause pause = true
is_pause _ = false

abbrev pub is_shutdown : KillSwitch.Action → Bool
is_shutdown KillSwitch.shutdown = true
is_shutdown _ = false

abbrev pub same_level : Option Level → Option Level → Bool
same_level none none = true
same_level (some info) (some info) = true
same_level (some warn) (some warn) = true
same_level (some critical) (some critical) = true
same_level _ _ = false

abbrev pub level_of : Option Alert → Option Level
level_of none = none
level_of (some a) = some a.level

-- `held != 0 and self.state in (OPEN, HALTED, FLAT)`
abbrev pub can_flatten : State → Bool
can_flatten open_position = true
can_flatten halted = true
can_flatten flat = true
can_flatten _ = false

abbrev pub is_halted : State → Bool
is_halted halted = true
is_halted _ = false

abbrev pub is_liquidated : State → Bool
is_liquidated liquidated = true
is_liquidated _ = false

abbrev pub is_due : Option Time → Time → Bool
is_due none now = false
is_due (some since) now = ltb pending_timeout (now - since)

module _ {E S : Type 0} ⦃x : Executor E⦄ where
  abbrev pub note : Option Decimal → List (String × Verdict) → String → Action E S (Unit {0})
  note target verdicts text = record_decision target verdicts none none text

  -- `_exit`, with the size to close
  unfoldable pub exit_with : Decimal → String → Option Decimal → Decimal → Action E S (Unit {0})
  exit_with mark reason target size w =
      send (exit_intent w.router.instrument_id mark size reason) target [] w

  unfoldable pub exit_now : Decimal → String → Option Decimal → Action E S (Unit {0})
  unfolding exit_with
  exit_now mark reason target w = exit_with mark reason target w.router.size w

  -- `shutdown`
  unfoldable pub shutdown : Decimal → Option Decimal → Action E S (Unit {0})
  shutdown mark exchange_size w =
      let r = w.router in
      let held = or_else exchange_size r.size in
      let was_halted = is_halted r.state in
      if is_liquidated r.state || (was_halted && is_zero held)
      then (ok tt, w)
      else (do
        (if not (is_zero held) && can_flatten r.state
            then exit_with mark "kill_shutdown" none held
            else skip)
        (if was_halted then skip else emit critical "kill_switch")
        set_state halted)
          w

  -- `clear_halt`
  unfoldable pub clear_halt : Action E S (Unit {0})
  clear_halt w = set_state (settled_state w.router.size) w

  -- `adopt_pending`
  unfoldable pub adopt_pending : Text → State → Action E S (Unit {0})
  adopt_pending id st w =
      if not (is_pending st)
      then (err failed, w)
      else (do
        assign (λ r. record r { pending_cid = some id; pending_since = some w.now })
        set_state st)
          w

  abbrev pub give_up : Option Text → Action E S (Unit {0})
  give_up none w = (ok tt, w)
  give_up (some id) w =
      update_order id false
        (λ r. record r {
          status = timeout_adopted;
          reason = "pending timeout: adopted the exchange size";
        })
        w

module _ {E S : Type 0} ⦃x : Executor E⦄ ⦃y : Strategy S⦄ where
  -- `check_pending`
  unfoldable pub check_pending : AccountSnapshot → Action E S (Unit {0})
  check_pending snap w =
      let r = w.router in
      if not (is_pending r.state) || not (is_due r.pending_since w.now)
      then (ok tt, w)
      else (do emit warn "pending_timeout"; give_up r.pending_cid; adopt_and_settle snap) w
