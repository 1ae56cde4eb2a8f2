-- ===== src/Signal/Approval.antt =====
-- load_validated of polyperps/signal/base.py, over records whose JSON is read. A value is what `get`
-- returns; the parsing of a time that carries its zone, `datetime.fromisoformat`, is a parameter. A file that
-- is not there is none for the approval and no records for the log; one that cannot be read is none.
-- A text is a list of character codes, whose letters A to Z `lower` makes small.
pub mod Revoked
use perpbot.Base.{
  ℕ, ◌+◌, Bool, true, false, not, ◌&&◌, ◌||◌, Option, none, some, List, [], ◌∷◌, if◌then◌else◌,
  ◌==◌, ltb, leb, eqb_text, any, find_first,
}
use perpbot.Execution.ClientId.{show}
use perpbot.Execution.Types.{Text, Time}

-- A JSON value: a null or missing one, true and false, a number that is not negative, a text, and any other
-- one by what `str` prints for it.
pub data Json : Type 0 where
  null : Json
  flag : Bool → Json
  number : ℕ → Json
  text : Text → Json
  other : Text → Json

-- A record of the log; a part that is not a dict is none.
pub record Record : Type 0 where
  pub run_id : Json
  pub passed : Json
  pub harness_version : Json
  pub source_type : Json
  pub sufficiency_met : Option Json
  pub robust_screened : Json
  pub end_ts : Json
  pub ts : Json
  pub hypothesis : Json
  pub instrument_id : Json
  pub fills_at_hourly_open : Option Json

pub record Approval : Type 0 where
  pub run_id : Json
  pub approved_by : Json
  pub approved_at : Json

-- `HARNESS_VERSION` of polyperps/backtest/harness.py
abbrev pub harness_version : ℕ
harness_version = 4

abbrev pub polymarket_ws : Text
polymarket_ws =
    b'p' ∷ b'o' ∷ b'l' ∷ b'y' ∷ b'm' ∷ b'a' ∷ b'r' ∷ b'k' ∷ b'e' ∷ b't' ∷ b'_' ∷ b'w' ∷ b's' ∷ []

abbrev pub polymarket_rest : Text
polymarket_rest =
    b'p' ∷ b'o' ∷ b'l' ∷ b'y' ∷ b'm' ∷ b'a' ∷ b'r' ∷ b'k' ∷ b'e' ∷ b't' ∷ b'_' ∷ b'r' ∷ b'e' ∷ b's'
    ∷ b't' ∷ []

abbrev pub is_native_text : Text → Bool
is_native_text t = eqb_text t polymarket_ws || eqb_text t polymarket_rest

abbrev pub is_true : Json → Bool
is_true (flag b) = b
is_true _ = false

abbrev pub is_number : ℕ → Json → Bool
is_number n (number m) = m == n
is_number n _ = false

abbrev pub is_text : Text → Json → Bool
is_text t (text s) = eqb_text s t
is_text t _ = false

abbrev pub is_native_value : Json → Bool
is_native_value (text t) = is_native_text t
is_native_value _ = false

abbrev pub is_met : Option Json → Bool
is_met none = false
is_met (some v) = is_true v

abbrev pub no_fills : Option Json → Bool
no_fills none = false
no_fills (some v) = is_number 0 v

-- `str(v)`
unfoldable pub str : Json → Text
str null = b'N' ∷ b'o' ∷ b'n' ∷ b'e' ∷ []
str (flag true) = b'T' ∷ b'r' ∷ b'u' ∷ b'e' ∷ []
str (flag false) = b'F' ∷ b'a' ∷ b'l' ∷ b's' ∷ b'e' ∷ []
str (number n) = show n
str (text t) = t
str (other t) = t

abbrev lower_code : ℕ → ℕ
lower_code c = if leb b'A' c && leb c b'Z' then c + 32 else c

unfoldable pub lower : Text → Text
lower [] = []
lower (c ∷ cs) = lower_code c ∷ lower cs

abbrev pub is_null : Json → Bool
is_null null = true
is_null _ = false

abbrev pub is_some_text : Json → Bool
is_some_text (text _) = true
is_some_text _ = false

abbrev pub is_some_number : Json → Bool
is_some_number (number _) = true
is_some_number _ = false

-- The characters that `strip` takes for spaces, of all of Unicode.
abbrev is_space : ℕ → Bool
is_space c =
    (leb 9 c && leb c 13)
    || (leb 28 c && leb c 32)
    || c == 133
    || c == 160
    || c == 5_760
    || (leb 8_192 c && leb c 8_202)
    || c == 8_232
    || c == 8_233
    || c == 8_239
    || c == 8_287
    || c == 12_288

abbrev strip_front : Text → Text
strip_front [] = []
strip_front (c ∷ cs) = if is_space c then strip_front cs else c ∷ cs

abbrev reversed : Text → Text → Text
reversed [] ds = ds
reversed (c ∷ cs) ds = reversed cs (c ∷ ds)

-- `t.strip()`
unfoldable pub strip : Text → Text
strip t = reversed (strip_front (reversed (strip_front t) [])) []

-- `isinstance(v, str) and v.strip()`, with the stripped text
abbrev pub signed_text : Text → Option Text
signed_text [] = none
signed_text (c ∷ cs) = some (c ∷ cs)

abbrev pub signed : Json → Option Text
signed (text t) = signed_text (strip t)
signed _ = none

module _ (parse : Text → Option Time) where
  -- `_aware`
  abbrev pub aware : Json → Option Time
  aware (text t) = parse t
  aware _ = none

  abbrev pub ends_in_time : Option Time → Option Time → Bool
  ends_in_time (some e) (some ts) = not (ltb ts e)
  ends_in_time _ _ = false

  -- `_record_passes`
  unfoldable pub record_passes : Text → Record → Bool
  record_passes run_id r =
      is_text run_id r.run_id
      && (is_true r.passed
          && (is_number harness_version r.harness_version
              && (is_native_value r.source_type
                  && (is_met r.sufficiency_met
                      && (is_true r.robust_screened
                          && ((is_some_text r.end_ts
                                && (is_some_text r.hypothesis && is_some_number r.instrument_id))
                              && (ends_in_time (aware r.end_ts) (aware r.ts)
                                  && no_fills r.fills_at_hourly_open)))))))

  -- A failure that cannot be placed in time fails closed.
  abbrev pub is_later : Option Time → Option Time → Bool
  is_later none approved = true
  is_later (some e) none = true
  is_later (some e) (some a) = ltb a e

  -- `_revokes`
  unfoldable pub revokes : (later approved : Record) → Bool
  revokes later approved =
      (not (is_null later.hypothesis)
        && eqb_text (lower (str later.hypothesis)) (lower (str approved.hypothesis)))
      && (eqb_text (str later.instrument_id) (str approved.instrument_id)
          && (eqb_text (str later.harness_version) (show harness_version)
              && (is_native_text (lower (str later.source_type))
                  && (not (is_true later.passed)
                      && is_later (aware later.end_ts) (aware approved.end_ts)))))

  abbrev pub stands : Option Record → List Record → Bool
  stands none records = false
  stands (some approved) records = not (any (λ r. revokes r approved) records)

  abbrev pub check_records : Option (List Record) → Text → Bool
  check_records none run_id = false
  check_records (some records) run_id = stands (find_first (record_passes run_id) records) records

  abbrev pub check_signed : Option Text → Option Text → Option Text → Option (List Record) → Bool
  check_signed (some run_id) (some by) (some at) log = check_records log run_id
  check_signed _ _ _ log = false

  -- `load_validated`
  unfoldable pub load_validated : Option Approval → Option (List Record) → Bool
  load_validated none log = false
  load_validated (some a) log =
      check_signed (signed a.run_id) (signed a.approved_by) (signed a.approved_at) log
