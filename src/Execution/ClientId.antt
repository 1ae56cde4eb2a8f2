-- ===== src/Execution/ClientId.antt =====
-- Client order ids, f"{run_id}-{instrument_id}-{seq}" of polyperps/execution/order_router.py, as lists
-- of character codes: how they are written, and how load_local reads the counter back.
pub mod Laws
use perpbot.Base.{
  ℕ, zero, suc, ◌+◌, ◌-◌, ◌*◌, ◌/◌, ◌%◌, Bool, true, false, ◌&&◌, List, [], ◌∷◌, ◌++◌, ltb, leb,
  ◌==◌, if◌then◌else◌, Option, none, some,
}
use perpbot.Execution.Types.{Text}

abbrev pub dash : ℕ
dash = b'-'

-- `str(n)`: the digits of `n`, the fuel at least `n`
unfoldable pub show_fuel : ℕ → ℕ → Text
show_fuel zero n = (b'0' + n % 10) ∷ []
show_fuel (suc f) n =
    let front = show_fuel f (n / 10) in
    if ltb n 10 then (b'0' + n) ∷ [] else front ++ ((b'0' + n % 10) ∷ [])

unfoldable pub show : ℕ → Text
unfolding show_fuel
show n = show_fuel n n

unfoldable pub cid : (run_id : Text) (instrument_id seq : ℕ) → Text
unfolding show
cid run_id instrument_id seq = run_id ++ (dash ∷ (show instrument_id ++ (dash ∷ show seq)))

-- `s.rsplit("-", 1)[-1]`: what follows the last dash
unfoldable pub tail_from : Text → Text → Text
tail_from acc [] = acc
tail_from acc (c ∷ cs) = tail_from (if c == dash then [] else acc ++ (c ∷ [])) cs

unfoldable pub last_part : Text → Text
unfolding tail_from
last_part s = tail_from [] s

abbrev pub is_digit : ℕ → Bool
is_digit c = leb b'0' c && leb c b'9'

-- `tail.isdigit()` of a text with at least one character
abbrev pub all_digits : Text → Bool
all_digits [] = true
all_digits (c ∷ cs) = is_digit c && all_digits cs

-- `int(tail)`
abbrev pub read_from : ℕ → Text → ℕ
read_from acc [] = acc
read_from acc (c ∷ cs) = read_from (acc * 10 + (c - b'0')) cs

abbrev pub read_text : Text → Option ℕ
read_text [] = none
read_text (c ∷ cs) = if all_digits (c ∷ cs) then some (read_from 0 (c ∷ cs)) else none

-- The number at the end of a client order id, if it is one.
unfoldable pub cid_number : Text → Option ℕ
unfolding last_part
cid_number s = read_text (last_part s)
