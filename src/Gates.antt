-- ===== src/Gates.antt =====
-- live_orders_allowed of polyperps/gates.py. The environment is the value of its variable, if it is set.
use perpbot.Base.{
  ℕ, Bool, true, false, not, Option, none, some, or_else, [], ◌∷◌, ◌≡◌, refl, ◌↔◌, String,
  if◌then◌else◌, eqb_text, eqb_text→eq, arith,
}
use mathlib.Core.Option.{some-injective}
use perpbot.Base.Dict.{Dict, lookup, nat_key}
use perpbot.Execution.Types.{Text}

pub data ExecutionMode : Type 0 where
  manual_review paper auto : ExecutionMode

pub record GateDecision : Type 0 where
  pub allowed : Bool
  pub reason : String

abbrev pub is_auto : ExecutionMode → Bool
is_auto auto = true
is_auto _ = false

abbrev pub true_text : Text
true_text = b't' ∷ b'r' ∷ b'u' ∷ b'e' ∷ []

abbrev pub is_enabled : Option Text → Bool
is_enabled none = false
is_enabled (some v) = eqb_text v true_text

unfoldable pub live_orders_allowed : ℕ → Dict ℕ ExecutionMode → Option Text → Bool → GateDecision
live_orders_allowed i modes env validated =
    if not (is_auto (or_else (lookup i modes) manual_review))
    then record { allowed = false; reason = "mode is not auto" }
    else if not (is_enabled env)
    then record { allowed = false; reason = "not exactly 'true'" }
    else if not validated
    then record { allowed = false; reason = "SIGNAL_VALIDATED is False" }
    else record { allowed = true; reason = "all gates passed" }

is_auto_iff :
    (m : Option ExecutionMode) → (is_auto (or_else m manual_review) ≡ true) ↔ (m ≡ some auto)
is_auto_iff none = (λ h. cc, λ h. cc)
is_auto_iff (some auto) = (λ h. refl, λ h. refl)
is_auto_iff (some paper) = (λ h. cc, λ h. cc)
is_auto_iff (some manual_review) = (λ h. cc, λ h. cc)

is_enabled_iff : (env : Option Text) → (is_enabled env ≡ true) ↔ (env ≡ some true_text)
is_enabled_iff none = (λ h. cc, λ h. cc)
is_enabled_iff (some v) =
    (λ h. rw (eqb_text→eq v true_text h) refl, λ h. rw (some-injective _ _ h) refl)

-- Live orders are allowed exactly if the instrument's mode is set to auto, the environment variable is
-- exactly "true", and the signal is validated.
pub live_orders_allowed_iff :
    (i : ℕ) (modes : Dict ℕ ExecutionMode) (env : Option Text) (validated : Bool)
    → ((live_orders_allowed i modes env validated).allowed ≡ true)
      ↔ ((lookup i modes ≡ some auto) × (env ≡ some true_text) × (validated ≡ true))
unfolding live_orders_allowed
live_orders_allowed_iff i modes env validated =
    let m = is_auto_iff (lookup i modes) in
    let e = is_enabled_iff env in
    (
      λ h. (m.0 (ground arith), e.0 (ground arith), ground arith),
      λ (a, b, c). ground (arith, m.1 a, e.1 b),
    )
