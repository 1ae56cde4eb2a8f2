-- ===== src/Strategies.antt =====
-- polyperps/strategies: the six pre-registered strategies behind the Strategy interface. What their z-score
-- takes from the library's floating point statistics is a parameter. A history is in order of time; the
-- empty one, for which some of them raise and which nothing passes, leaves a strategy as it is.
pub mod Faded
pub mod Timed
pub mod Built
use perpbot.Base.{
  ℕ, zero, suc, ◌+◌, ◌-◌, ◌*◌, Bool, true, false, not, ◌&&◌, ◌||◌, Option, none, some, List, [],
  ◌∷◌, ◌++◌, if◌then◌else◌, ◌==◌, ltb, leb, length, pos, neg_ℤ, abs_ℤ, leb_ℤ, ltb_ℤ, ◌-ℤ◌,
}
use perpbot.Decimal.{Decimal, whole, ◌/ᴰ◌}
use perpbot.Execution.Router.Rows.{is_zero}
use perpbot.Execution.Types.{Bar, Time}

abbrev pub one : Decimal
one = whole 1

abbrev pub minus_one : Decimal
minus_one = neg_ℤ one

-- `Decimal(position_sign)`, for a sign that is 1 or -1
abbrev pub sign_of : Bool → Decimal
sign_of true = one
sign_of false = minus_one

-- `a / b - 1`
abbrev pub change : Decimal → Decimal → Decimal
change a b = a /ᴰ b -ℤ one

-- The floating point part of zscore: whether `stdev` of the values is 0.0, and otherwise the distance of
-- the last value from their mean in units of it.
pub record Statistics : Type 0 where
  pub has_no_spread : List Decimal → Bool
  pub last_score : List Decimal → Decimal

-- `zscore` of polyperps/strategies/_zscore.py
unfoldable pub zscore : Statistics → List Decimal → Option Decimal
zscore st values =
    if ltb (length values) 3
    then none
    else if st.has_no_spread values
    then some (pos 0)
    else some (st.last_score values)

-- `[b.funding_rate for b in history if b.funding_rate is not None]`
abbrev pub add_rate : Option Decimal → List Decimal → List Decimal
add_rate none rs = rs
add_rate (some r) rs = r ∷ rs

unfoldable pub rates_of : List Bar → List Decimal
rates_of [] = []
rates_of (b ∷ bs) = add_rate b.funding_rate (rates_of bs)

abbrev pub drop {ℓ} : {A : Type ℓ} → ℕ → List A → List A
drop zero xs = xs
drop (suc n) [] = []
drop (suc n) (x ∷ xs) = drop n xs

-- `xs[-n:]`, which for n = 0 is the whole list
abbrev pub last_n : ℕ → List Bar → List Bar
last_n n xs = if n == 0 then xs else drop (length xs - n) xs

abbrev pub reverse_onto {ℓ} : {A : Type ℓ} → List A → List A → List A
reverse_onto [] ys = ys
reverse_onto (x ∷ xs) ys = reverse_onto xs (x ∷ ys)

-- The walk back through history: newest first, the values that there are, until the window has `n`. The
-- window is in order of time.
unfoldable pub walk_back : ℕ → List Decimal → List (Option Decimal) → List Decimal
walk_back n window [] = window
walk_back n window (none ∷ vs) = walk_back n window vs
walk_back n window (some v ∷ vs) =
    let more = walk_back n (v ∷ window) vs in if length (v ∷ window) == n then v ∷ window else more

-- Against the stretch: -1 from entry_z up, 1 from -entry_z down, flat inside exit_z, else as before.
abbrev pub fade : (entry_z exit_z z position : Decimal) → Decimal
fade entry_z exit_z z position =
    if leb_ℤ entry_z z
    then minus_one
    else if leb_ℤ z (neg_ℤ entry_z)
    then one
    else if ltb_ℤ (abs_ℤ z) exit_z
    then pos 0
    else position

abbrev pub fade_if : (entry_z exit_z : Decimal) → Option Decimal → Decimal → Decimal
fade_if entry_z exit_z none position = position
fade_if entry_z exit_z (some z) position = fade entry_z exit_z z position
