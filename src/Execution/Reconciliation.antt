-- ===== src/Execution/Reconciliation.antt =====
-- diff of polyperps/execution/reconciliation.py: the stored rows against the executor's view. A mismatch
-- carries the two values that the source prints into its texts.
pub mod Diff
use perpbot.Base.{
  ℕ, Bool, true, false, not, ◌&&◌, ◌||◌, Option, none, some, List, [], ◌∷◌, ◌++◌, if◌then◌else◌,
  ◌==◌, ltb, eqb_ℤ, ltb_ℤ, abs_ℤ, ◌-ℤ◌, pos, is_some,
}
use perpbot.Base.Dict.{Dict, lookup, insert, nat_key}
use perpbot.Decimal.{Decimal, hundredths, ◌/ᴰ◌}
use perpbot.Execution.ClientId.{dash}
use perpbot.Execution.Types.{State, PositionLocalRow, PositionView, AccountSnapshot, Text}
use perpbot.Execution.Router.Rows.{is_zero, is_pending, is_open}
use perpbot.Execution.Router.Send.{mem_text, size_of}

-- `Mismatch`, a constructor for each kind
pub data Mismatch : Type 0 where
  size : ℕ → Decimal → Decimal → Mismatch
  missing_stop : ℕ → Option Decimal → Mismatch
  stop_drift : ℕ → Decimal → Decimal → Mismatch
  stop_without_position : ℕ → Decimal → Mismatch
  unknown_order : Text → Mismatch

-- `{p.instrument_id: p for p in remote.positions}`: the last one of an instrument counts
unfoldable pub positions_by_id : Dict ℕ PositionView → List PositionView → Dict ℕ PositionView
positions_by_id d [] = d
positions_by_id d (p ∷ ps) = positions_by_id (insert p.instrument_id p d) ps

-- One more element of a sorted list without repeats.
unfoldable pub add_sorted : ℕ → List ℕ → List ℕ
add_sorted k [] = k ∷ []
add_sorted k (j ∷ js) =
    if k == j then j ∷ js else if ltb k j then k ∷ (j ∷ js) else j ∷ add_sorted k js

unfoldable pub add_keys : {V : Type 0} → Dict ℕ V → List ℕ → List ℕ
add_keys [] ks = ks
add_keys ((k, v) ∷ d) ks = add_sorted k (add_keys d ks)

-- `sorted(set(local) | set(remote_pos))`
unfoldable pub all_keys : Dict ℕ PositionLocalRow → Dict ℕ PositionView → List ℕ
all_keys local remote = add_keys local (add_keys remote [])

abbrev pub row_size : Option PositionLocalRow → Decimal
row_size none = pos 0
row_size (some r) = r.size

abbrev pub row_stop : Option PositionLocalRow → Option Decimal
row_stop none = none
row_stop (some r) = r.stop_trigger

-- `lrow is not None and lrow.state in (ENTRY_PENDING, EXIT_PENDING)`
abbrev pub row_pending : Option PositionLocalRow → Bool
row_pending none = false
row_pending (some r) = is_pending r.state

abbrev pub row_open : Option PositionLocalRow → Bool
row_open none = false
row_open (some r) = is_open r.state

-- The test of a stop's drift, for the remote and the local trigger.
abbrev pub drift : ℕ → Option Decimal → Option Decimal → Decimal → List Mismatch
drift i (some rstop) (some lstop) tolerance =
    if not (is_zero lstop) && ltb_ℤ tolerance (abs_ℤ (rstop -ℤ lstop) /ᴰ lstop)
    then stop_drift i lstop rstop ∷ []
    else []
drift i none _ tolerance = []
drift i (some _) none tolerance = []

-- One turn of the loop, after the stop test.
unfoldable pub compare_rows :
    ℕ → Option PositionLocalRow → Decimal → Option Decimal → Decimal → List Mismatch
compare_rows i row rsize rstop tolerance =
    if row_pending row
    then []
    else if not (eqb_ℤ (row_size row) rsize)
    then size i (row_size row) rsize ∷ []
    else if not (is_zero rsize) && row_open row
    then drift i rstop (row_stop row) tolerance
    else []

-- One turn of the loop over the instruments.
unfoldable pub check_one :
    Dict ℕ PositionLocalRow → Dict ℕ PositionView → Dict ℕ Decimal → Decimal → ℕ → List Mismatch
check_one local remote stops tolerance i =
    let row = lookup i local in
    let rsize = size_of (lookup i remote) in
    (if not (is_zero rsize) && not (is_some (lookup i stops))
      then missing_stop i (row_stop row) ∷ []
      else [])
    ++ compare_rows i row rsize (lookup i stops) tolerance

unfoldable pub check_all :
    Dict ℕ PositionLocalRow
    → Dict ℕ PositionView
    → Dict ℕ Decimal
    → Decimal
    → List ℕ
    → List Mismatch
check_all local remote stops tolerance [] = []
check_all local remote stops tolerance (i ∷ is) =
    check_one local remote stops tolerance i ++ check_all local remote stops tolerance is

unfoldable pub orphan_stops : Dict ℕ PositionView → Dict ℕ Decimal → List Mismatch
orphan_stops remote [] = []
orphan_stops remote ((i, trigger) ∷ stops) =
    if is_zero (size_of (lookup i remote))
    then stop_without_position i trigger ∷ orphan_stops remote stops
    else orphan_stops remote stops

-- `oid.startswith(prefix)`
abbrev pub starts_with : Text → Text → Bool
starts_with [] s = true
starts_with (c ∷ p) [] = false
starts_with (c ∷ p) (d ∷ s) = c == d && starts_with p s

abbrev pub is_known : Text → List Text → Text → Bool
is_known run_id known id = starts_with (run_id ++ (dash ∷ [])) id && mem_text id known

unfoldable pub unknown_orders : Text → List Text → List Text → List Mismatch
unknown_orders run_id known [] = []
unknown_orders run_id known (id ∷ ids) =
    if is_known run_id known id
    then unknown_orders run_id known ids
    else unknown_order id ∷ unknown_orders run_id known ids

-- The default of `stop_drift_tolerance`
abbrev pub drift_tolerance : Decimal
drift_tolerance = hundredths 5

unfoldable pub diff :
    Dict ℕ PositionLocalRow → AccountSnapshot → Text → List Text → Decimal → List Mismatch
diff local remote run_id known tolerance =
    let by_id = positions_by_id [] remote.positions in
    check_all local by_id remote.stops tolerance (all_keys local by_id)
    ++ (orphan_stops by_id remote.stops ++ unknown_orders run_id known remote.open_orders)
