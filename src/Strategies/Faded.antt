-- ===== src/Strategies/Faded.antt =====
-- The strategies whose state is a position alone: FundingReversion (H1), Basis (H2) and FundingCarry (H6).
use perpbot.Base.{
  ℕ, zero, suc, ◌&&◌, ◌||◌, Option, none, some, List, [], ◌∷◌, if◌then◌else◌, ltb, length, pos,
  neg_ℤ, leb_ℤ, ltb_ℤ, sum_by,
}
use perpbot.Base.Dict.{Dict, lookup, nat_key}
use perpbot.Decimal.{Decimal, whole, hundredths, ◌*ᴰ◌, ◌/ᴰ◌}
use perpbot.Execution.Router.Rows.{is_zero}
use perpbot.Execution.Types.{Bar, Time}
use perpbot.Execution.World.{Strategy}
use perpbot.Strategies.{
  Statistics, zscore, rates_of, last_n, reverse_onto, walk_back, fade_if, sign_of, one, minus_one,
  change,
}

-- A strategy whose state is `_position`, from what `target` makes of it.
abbrev pub positional : ℕ → (List Bar → Decimal → Decimal) → Strategy Decimal
positional warmup next = record {
  warmup = warmup;
  target = λ history s. (next history s, next history s);
  on_flatten = λ s. pos 0;
  on_recover = λ long s. sign_of long;
}

-- `FundingReversion.target`
unfoldable pub reversion_target :
    Statistics → ℕ → (entry_z exit_z : Decimal) → List Bar → Decimal → Decimal
reversion_target st lookback entry_z exit_z history s =
    fade_if entry_z exit_z (zscore st (rates_of (last_n lookback history))) s

abbrev pub funding_reversion : Statistics → ℕ → (entry_z exit_z : Decimal) → Strategy Decimal
funding_reversion st lookback entry_z exit_z =
    positional lookback (reversion_target st lookback entry_z exit_z)

abbrev pub Closes : Type 0
Closes = Dict Time Decimal

abbrev pub basis_exit_z : Decimal
basis_exit_z = hundredths 50

abbrev pub basis_of : Option Decimal → Option Decimal → Option Decimal
basis_of none _ = none
basis_of (some close) none = none
basis_of (some close) (some hl) = if is_zero hl then none else some (change close hl)

-- `Basis._pair`
unfoldable pub pair : Closes → Bar → Option Decimal
pair proxy b = basis_of b.close (lookup b.open_ts proxy)

unfoldable pub pairs : Closes → List Bar → List (Option Decimal)
pairs proxy [] = []
pairs proxy (b ∷ bs) = pair proxy b ∷ pairs proxy bs

abbrev pub last_pair : List (Option Decimal) → Option Decimal
last_pair [] = none
last_pair (none ∷ []) = none
last_pair (some v ∷ []) = some v
last_pair (v ∷ w ∷ vs) = last_pair (w ∷ vs)

abbrev pub basis_window : Statistics → ℕ → Decimal → List Decimal → Decimal → Decimal
basis_window st lookback entry_z window s =
    if ltb (length window) lookback
    then pos 0
    else fade_if entry_z basis_exit_z (zscore st window) s

abbrev pub basis_from :
    Statistics → ℕ → Decimal → Option Decimal → List (Option Decimal) → Decimal → Decimal
basis_from st lookback entry_z none vs s = pos 0
basis_from st lookback entry_z (some _) vs s =
    basis_window st lookback entry_z (walk_back lookback [] (reverse_onto vs [])) s

-- `Basis.target`
unfoldable pub basis_target : Statistics → ℕ → Decimal → Closes → List Bar → Decimal → Decimal
basis_target st lookback entry_z proxy history s =
    let vs = pairs proxy history in basis_from st lookback entry_z (last_pair vs) vs s

abbrev pub basis : Statistics → ℕ → Decimal → Closes → Strategy Decimal
basis st lookback entry_z proxy = positional lookback (basis_target st lookback entry_z proxy)

abbrev pub take : ℕ → List Decimal → List Decimal
take zero xs = []
take (suc n) [] = []
take (suc n) (x ∷ xs) = x ∷ take n xs

abbrev pub bps : Decimal
bps = whole 10000

-- From the mean funding `f` on, in basis points for an hour.
abbrev pub carry_side : (entry f position : Decimal) → Decimal
carry_side entry f position =
    let half = entry /ᴰ whole 2 in
    if leb_ℤ entry f
    then minus_one
    else if leb_ℤ f (neg_ℤ entry)
    then one
    else if (ltb_ℤ position (pos 0) && ltb_ℤ f half)
        || (ltb_ℤ (pos 0) position && ltb_ℤ (neg_ℤ half) f)
    then pos 0
    else position

abbrev pub carry_from : Decimal → ℕ → List Decimal → Decimal → Decimal
carry_from entry hours rates s =
    if ltb (length rates) hours
    then s
    else carry_side entry ((sum_by (λ r. r) rates /ᴰ whole (length rates)) *ᴰ bps) s

-- `FundingCarry.target`: the newest rates first
unfoldable pub carry_target : Decimal → ℕ → List Bar → Decimal → Decimal
carry_target entry hours history s =
    carry_from entry hours (take hours (rates_of (reverse_onto history []))) s

abbrev pub funding_carry : Decimal → ℕ → Strategy Decimal
funding_carry entry hours = positional hours (carry_target entry hours)
