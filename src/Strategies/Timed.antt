-- ===== src/Strategies/Timed.antt =====
-- The strategies that hold a position for a number of bars: IndexLag (H3), LeadLag (H4), Overshoot (H5).
use perpbot.Base.{
  ℕ, ◌+◌, not, ◌&&◌, Option, none, some, List, [], ◌∷◌, if◌then◌else◌, ◌==◌, ltb, leb, length, pos,
  neg_ℤ, abs_ℤ, leb_ℤ, ltb_ℤ, ◌-ℤ◌, last?,
}
use perpbot.Base.Dict.{lookup, nat_key}
use perpbot.Decimal.{Decimal, whole, ◌*ᴰ◌, ◌/ᴰ◌}
use perpbot.Execution.LiveBars.{hour}
use perpbot.Execution.Router.Rows.{is_zero}
use perpbot.Execution.Types.{Bar}
use perpbot.Execution.World.{Strategy}
use perpbot.Strategies.{
  Statistics, zscore, reverse_onto, walk_back, sign_of, one, minus_one, change,
}
use perpbot.Strategies.Faded.{Closes, bps}

-- `_position` and `_held`
pub record Held : Type 0 where
  pub position : Decimal
  pub held : ℕ

abbrev pub at_rest : Held
at_rest = record { position = pos 0; held = 0 }

-- The branch `if self._position != 0`: one more bar held, flat from `hold_bars` on.
abbrev pub hold_on : ℕ → Held → Held
hold_on hold_bars s = if leb hold_bars (s.held + 1) then at_rest else record s { held = s.held + 1 }

-- A strategy whose state is `Held`; on_recover sets the position alone.
abbrev pub timed : ℕ → (List Bar → Held → Held) → Strategy Held
timed warmup next = record {
  warmup = warmup;
  target = λ history s. let s' = next history s in (s'.position, s');
  on_flatten = λ s. at_rest;
  on_recover = λ long s. record s { position = sign_of long };
}

-- From the premium on: toward the index, if it is `entry_bps` away.
abbrev pub lag_entry : (entry_bps premium : Decimal) → Held → Held
lag_entry entry_bps premium s =
    if leb_ℤ premium (neg_ℤ entry_bps)
    then record { position = one; held = 0 }
    else if leb_ℤ entry_bps premium
    then record { position = minus_one; held = 0 }
    else record s { held = 0 }

abbrev pub lag_step : ℕ → Decimal → Option Decimal → Option Decimal → Held → Held
lag_step hold_bars entry_bps none _ s = at_rest
lag_step hold_bars entry_bps (some index) none s = at_rest
lag_step hold_bars entry_bps (some index) (some close) s =
    if is_zero index
    then at_rest
    else if not (is_zero s.position)
    then hold_on hold_bars s
    else lag_entry entry_bps (change close index *ᴰ bps) s

abbrev pub lag_at : ℕ → Decimal → Option Bar → Held → Held
lag_at hold_bars entry_bps none s = s
lag_at hold_bars entry_bps (some b) s = lag_step hold_bars entry_bps b.index_close b.close s

-- `IndexLag.target`
unfoldable pub index_lag_next : Decimal → ℕ → List Bar → Held → Held
index_lag_next entry_bps hold_bars history s = lag_at hold_bars entry_bps (last? history) s

abbrev pub index_lag : Decimal → ℕ → Strategy Held
index_lag entry_bps hold_bars = timed 1 (index_lag_next entry_bps hold_bars)

-- `not x`, for a price that may be missing: the price if it is there and not zero
abbrev pub present : Option Decimal → Option Decimal
present none = none
present (some x) = if is_zero x then none else some x

-- The change from one price to the next, if both are there.
abbrev pub change_of : Option Decimal → Option Decimal → Option Decimal
change_of (some before) (some now) = some (change now before)
change_of _ _ = none

-- `_ret` of polyperps/strategies/overshoot.py
unfoldable pub hourly_return : Bar → Bar → Option Decimal
hourly_return p c =
    if not (c.open_ts == p.open_ts + hour)
    then none
    else change_of (present p.close) (present c.close)

-- Both venues' returns over the last hour: the tests of LeadLag.target before the gap.
unfoldable pub both_returns : Closes → Bar → Bar → Option (Decimal × Decimal)
both_returns proxy p c =
    both (change_of (present (lookup p.open_ts proxy)) (present (lookup c.open_ts proxy)))
      (hourly_return p c)
  where
    both : Option Decimal → Option Decimal → Option (Decimal × Decimal)
    both (some hl) (some pm) = some (hl, pm)
    both _ _ = none

abbrev pub lead_entry : Decimal → Option (Decimal × Decimal) → Held → Held
lead_entry gap_bps none s = s
lead_entry gap_bps (some (r_hl, r_pm)) s =
    let lag = r_hl -ℤ r_pm in
    let gap = gap_bps /ᴰ bps in
    if leb_ℤ gap (abs_ℤ r_hl) && (ltb_ℤ (pos 0) (lag *ᴰ r_hl) && leb_ℤ gap (abs_ℤ lag))
    then record { position = if ltb_ℤ (pos 0) r_hl then one else minus_one; held = 0 }
    else s

-- The last two bars, if there are two.
unfoldable pub last_two : List Bar → Option (Bar × Bar)
last_two [] = none
last_two (b ∷ []) = none
last_two (b ∷ c ∷ []) = some (b, c)
last_two (a ∷ b ∷ c ∷ bs) = last_two (b ∷ c ∷ bs)

abbrev pub lead_at : Decimal → Closes → Option (Bar × Bar) → Held → Held
lead_at gap_bps proxy none s = s
lead_at gap_bps proxy (some (p, c)) s = lead_entry gap_bps (both_returns proxy p c) s

-- `LeadLag.target`
unfoldable pub lead_lag_next : Decimal → ℕ → Closes → List Bar → Held → Held
lead_lag_next gap_bps hold_bars proxy history s =
    if not (is_zero s.position)
    then hold_on hold_bars s
    else lead_at gap_bps proxy (last_two history) s

abbrev pub lead_lag : Decimal → ℕ → Closes → Strategy Held
lead_lag gap_bps hold_bars proxy = timed 2 (lead_lag_next gap_bps hold_bars proxy)

-- The hourly returns of a history, in order of time.
unfoldable pub returns_of : List Bar → List (Option Decimal)
returns_of [] = []
returns_of (b ∷ []) = []
returns_of (b ∷ c ∷ bs) = hourly_return b c ∷ returns_of (c ∷ bs)

-- `_LOOKBACK` and `_MIN_MOVE_BPS`
abbrev pub overshoot_lookback : ℕ
overshoot_lookback = 168

abbrev pub least_move : Decimal
least_move = whole 30

abbrev pub overshoot_entry : Decimal → Decimal → Option Decimal → Held → Held
overshoot_entry entry_z r none s = s
overshoot_entry entry_z r (some z) s =
    if leb_ℤ entry_z (abs_ℤ z) && leb_ℤ least_move (abs_ℤ r *ᴰ bps)
    then record { position = if ltb_ℤ (pos 0) r then minus_one else one; held = 0 }
    else s

abbrev pub overshoot_window : Statistics → Decimal → Decimal → List Decimal → Held → Held
overshoot_window st entry_z r window s =
    if ltb (length window) overshoot_lookback
    then s
    else overshoot_entry entry_z r (zscore st window) s

abbrev pub overshoot_from : Statistics → Decimal → Option Decimal → List Bar → Held → Held
overshoot_from st entry_z none history s = s
overshoot_from st entry_z (some r) history s =
    overshoot_window st entry_z r
      (walk_back overshoot_lookback [] (reverse_onto (returns_of history) [])) s

abbrev pub overshoot_at : Statistics → Decimal → Option (Bar × Bar) → List Bar → Held → Held
overshoot_at st entry_z none history s = s
overshoot_at st entry_z (some (p, c)) history s =
    overshoot_from st entry_z (hourly_return p c) history s

-- `Overshoot.target`
unfoldable pub overshoot_next : Statistics → Decimal → ℕ → List Bar → Held → Held
overshoot_next st entry_z hold_bars history s =
    if not (is_zero s.position)
    then hold_on hold_bars s
    else overshoot_at st entry_z (last_two history) history s

abbrev pub overshoot : Statistics → Decimal → ℕ → Strategy Held
overshoot st entry_z hold_bars =
    timed (overshoot_lookback + 1) (overshoot_next st entry_z hold_bars)
