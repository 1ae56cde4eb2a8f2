-- ===== src/Ingest/Intervals.antt =====
-- polyperps/data_ingest/intervals.py: the text of an interval, and the candles that are closed. A text is a list
-- of character codes; digits and letters are those of ASCII.
use perpbot.Base.{
  ℕ, ◌+◌, ◌-◌, ◌*◌, Bool, true, false, Option, none, some, List, [], ◌∷◌, if◌then◌else◌, leb, ltb,
  ◌==◌,
}
use perpbot.Exchange.{Candle}
use perpbot.Execution.ClientId.{is_digit}
use perpbot.Execution.LiveBars.{hour}
use perpbot.Execution.Types.{Text, Time}

-- A text that does not match, an interval, or a `timedelta` out of its range, which raises.
pub data Parsed : Type 0 where
  unparsed out_of_range : Parsed
  interval : Time → Parsed

abbrev pub second : Time
second = 1_000_000

-- `_UNIT_TO_KWARG[unit.lower()]`
abbrev pub unit_of : ℕ → Option Time
unit_of c =
    if c == b's'
    then some second
    else if c == b'S'
    then some second
    else if c == b'm'
    then some (60 * second)
    else if c == b'M'
    then some (60 * second)
    else if c == b'h'
    then some hour
    else if c == b'H'
    then some hour
    else if c == b'd'
    then some (24 * hour)
    else if c == b'D'
    then some (24 * hour)
    else if c == b'w'
    then some (168 * hour)
    else if c == b'W'
    then some (168 * hour)
    else none

-- `$` matches at the end and before a newline that ends the text.
abbrev pub is_end : Text → Bool
is_end [] = true
is_end (c ∷ []) = c == 10
is_end (c ∷ d ∷ cs) = false

-- A `timedelta` has fewer than 10^9 days.
abbrev pub spanned : ℕ → Option Time → Parsed
spanned amount none = unparsed
spanned amount (some unit) =
    if ltb (amount * unit) (1_000_000_000 * (24 * hour))
    then interval (amount * unit)
    else out_of_range

unfoldable pub parse_from : (amount : ℕ) (seen : Bool) → Text → Parsed
parse_from amount seen [] = unparsed
parse_from amount seen (c ∷ cs) =
    let rest = parse_from (amount * 10 + (c - b'0')) true cs in
    if is_digit c
    then rest
    else if seen
    then (if is_end cs then spanned amount (unit_of c) else unparsed)
    else unparsed

unfoldable pub parse_interval : Text → Parsed
parse_interval text = parse_from 0 false text

-- `c.open_ts + parse_interval(c.interval) <= now`, which raises for a text that is no interval
abbrev pub is_closed : Time → Candle → Option Bool
is_closed now c = elim (parse_interval c.interval) [
  | interval span ↦ some (leb (c.open_ts + span) now)
  | unparsed ↦ none
  | out_of_range ↦ none
]

abbrev pub keep_if : Candle → Option Bool → Option (List Candle) → Option (List Candle)
keep_if c none rest = none
keep_if c (some b) none = none
keep_if c (some b) (some cs) = some (if b then c ∷ cs else cs)

-- `closed`
unfoldable pub closed : Time → List Candle → Option (List Candle)
closed now [] = some []
closed now (c ∷ cs) = keep_if c (is_closed now c) (closed now cs)
